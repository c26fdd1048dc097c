-- ===== src/Programs/Enroll.antt =====
-- src/bin/enroll_user.rs: `main` behind its options.
use zkp_verifier.Common.{
  String, Bool, true, false, Option, none, some, List, [], ◌∷◌, Outcome, ok, err, panic, ◌>>=◌,
  map_err, unwrap, Bytes, if◌then◌else◌,
}
use zkp_verifier.Curve.{Curve}
use zkp_verifier.Database.{Rusqlite}
use zkp_verifier.FileSystem.{FileSystem}
use zkp_verifier.KeyFile.{hex_string}
use zkp_verifier.Storage.{StorageError, list_users, get_public_key, register, is_registered}
use zkp_verifier.Engine.{public_key, public_to_bytes, secret_to_bytes}
use zkp_verifier.Cli.Servers.{EnrollUserOptions}
use zkp_verifier.Programs.{MainError, storage_failed, io_failed, key_file, Session}

abbrev pub user_or_default : Option String → String
user_or_default none = "alice_fintech"
user_or_default (some user_id) = user_id

module _ (F : FileSystem) (C : Curve) (S : Rusqlite) where
  -- The lines of the list that is printed, the disk, the bank's database, and how the program ends.
  pub record Enrolled : Type 0 where
    pub listed : List (String × Bytes)
    pub disk : F.Disk
    pub bank : Option S.Connection
    pub result : Outcome MainError (Unit {0})

  -- `for u in users { let pk = registry.get_public_key(&u)?.unwrap(); … }`
  unfoldable pub list_keys :
      S.Connection → List String → List (String × Bytes) × Outcome MainError (Unit {0})
  list_keys conn [] = ([], ok tt)
  list_keys conn (u ∷ users) =
      let (lines, result) = list_keys conn users in
      elim (map_err storage_failed (get_public_key S C conn u) >>= unwrap) [
        | ok pk ↦ ((u, public_to_bytes C pk) ∷ lines, result)
        | err e ↦ ([], err e)
        | panic ↦ ([], panic)
      ]

  abbrev pub after_list : F.Disk → S.Connection → Outcome StorageError (List String) → Enrolled
  after_list disk conn (ok users) =
      let (lines, result) = list_keys conn users in
      record { listed = lines; disk = disk; bank = some conn; result = result }
  after_list disk conn (err e) = record {
    listed = [];
    disk = disk;
    bank = some conn;
    result = err (storage_failed e);
  }
  after_list disk conn panic = record { listed = []; disk = disk; bank = some conn; result = panic }

  -- `assert!(registry.is_registered(&user_name)?)`
  abbrev pub assert_registered : Outcome StorageError Bool → Outcome MainError (Unit {0})
  assert_registered (ok true) = ok tt
  assert_registered (ok false) = panic
  assert_registered (err e) = err (storage_failed e)
  assert_registered panic = panic

  abbrev pub after_register :
      F.Disk → String → Outcome StorageError (Unit {0}) × S.Connection → Enrolled
  after_register disk u (ok _, conn) = record {
    listed = [];
    disk = disk;
    bank = some conn;
    result = assert_registered (is_registered S conn u);
  }
  after_register disk u (err e, conn) = record {
    listed = [];
    disk = disk;
    bank = some conn;
    result = err (storage_failed e);
  }
  after_register disk u (panic, conn) = record {
    listed = [];
    disk = disk;
    bank = some conn;
    result = panic;
  }

  abbrev pub after_write :
      Session F C S → S.Connection → String → Outcome String (Unit {0}) × F.Disk → Enrolled
  after_write s conn u (ok _, disk) =
      after_register disk u (register S C conn u (public_key C s.fresh_key) s.now)
  after_write s conn u (err e, disk) = record {
    listed = [];
    disk = disk;
    bank = some conn;
    result = err (io_failed e);
  }
  after_write s conn u (panic, disk) = record {
    listed = [];
    disk = disk;
    bank = some conn;
    result = panic;
  }

  unfoldable pub enroll : Session F C S → S.Connection → String → Enrolled
  enroll s conn u =
      after_write s conn u
        (F.write s.disk (key_file u) (hex_string (secret_to_bytes C s.fresh_key)))

  abbrev pub after_open :
      EnrollUserOptions → Session F C S → Outcome StorageError S.Connection → Enrolled
  after_open o s (ok conn) =
      if o.list
      then after_list s.disk conn (list_users S conn)
      else enroll s conn (user_or_default o.user_id)
  after_open o s (err e) = record {
    listed = [];
    disk = s.disk;
    bank = none;
    result = err (storage_failed e);
  }
  after_open o s panic = record { listed = []; disk = s.disk; bank = none; result = panic }

  unfoldable pub enroll_user : EnrollUserOptions → Session F C S → Enrolled
  unfolding enroll
  enroll_user o s = after_open o s s.opened
