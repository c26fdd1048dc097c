-- ===== src/Programs/Enrolled.antt =====
-- src/bin/enroll_user.rs: what `main` leaves on the disk and in the bank's database.
use zkp_verifier.Common.{
  ◌≡◌, refl, ap, sym, ◌∙◌, subst, String, false, some, Outcome, ok, err, panic,
}
use zkp_verifier.Curve.{Curve}
use zkp_verifier.Database.{Rusqlite}
use zkp_verifier.FileSystem.{FileSystem}
use zkp_verifier.KeyFile.{hex_string}
use zkp_verifier.Engine.{public_key, secret_to_bytes}
use zkp_verifier.Storage.{StorageError, register}
use zkp_verifier.Cli.Servers.{EnrollUserOptions}
use zkp_verifier.Programs.{key_file, Session}
use zkp_verifier.Programs.Enroll.{
  Enrolled, after_open, user_or_default, after_register, after_write, enroll, enroll_user,
}

module _ (F : FileSystem) (C : Curve) (S : Rusqlite) where
  module _ (s : Session F C S) (conn : S.Connection) (u : String) where
    abbrev pub writing : Outcome String (Unit {0}) × F.Disk
    writing = F.write s.disk (key_file u) (hex_string (secret_to_bytes C s.fresh_key))

    abbrev pub registering : Outcome StorageError (Unit {0}) × S.Connection
    registering = register S C conn u (public_key C s.fresh_key) s.now

    -- The disk and the database, if the key file was written.
    abbrev pub Keeps : Enrolled F C S → Type 0
    Keeps e = (e.disk ≡ writing.1) × (e.bank ≡ some registering.1)

    after_register-disk :
        (disk : F.Disk) (r : Outcome StorageError (Unit {0}) × S.Connection)
        → ((after_register F C S disk u r).disk ≡ disk)
          × ((after_register F C S disk u r).bank ≡ some r.1)
    after_register-disk disk (ok _, c) = (refl, refl)
    after_register-disk disk (err e, c) = (refl, refl)
    after_register-disk disk (panic, c) = (refl, refl)

    after_register-done :
        (disk : F.Disk) (r : Outcome StorageError (Unit {0}) × S.Connection)
        → (after_register F C S disk u r).result ≡ ok tt
        → r.0 ≡ ok tt
    after_register-done disk (ok _, c) h = refl
    after_register-done disk (err e, c) h = cc
    after_register-done disk (panic, c) h = cc

    after_write-disk :
        (w : Outcome String (Unit {0}) × F.Disk)
        → w.0 ≡ ok tt
        → ((after_write F C S s conn u w).disk ≡ w.1)
          × ((after_write F C S s conn u w).bank ≡ some registering.1)
    after_write-disk (ok _, disk) h = after_register-disk disk registering
    after_write-disk (err e, disk) h = cc
    after_write-disk (panic, disk) h = cc

    after_write-done :
        (w : Outcome String (Unit {0}) × F.Disk)
        → (after_write F C S s conn u w).result ≡ ok tt
        → (w.0 ≡ ok tt) × (registering.0 ≡ ok tt)
    after_write-done (ok _, disk) h = (refl, after_register-done disk registering h)
    after_write-done (err e, disk) h = cc
    after_write-done (panic, disk) h = cc

    enroll-Keeps : writing.0 ≡ ok tt → Keeps (enroll F C S s conn u)
    unfolding enroll
    enroll-Keeps h = after_write-disk writing h

    enroll-done :
        (enroll F C S s conn u).result ≡ ok tt → (writing.0 ≡ ok tt) × (registering.0 ≡ ok tt)
    unfolding enroll
    enroll-done h = after_write-done writing h

  module _ (o : EnrollUserOptions) (s : Session F C S) (conn : S.Connection) (one : o.list ≡ false)
      (opened : s.opened ≡ ok conn) where
    enroll_user-enroll : enroll_user F C S o s ≡ enroll F C S s conn (user_or_default o.user_id)
    unfolding enroll_user
    enroll_user-enroll = ap (after_open F C S o s) opened ∙ simp one refl

    pub enroll_user-Keeps :
        (writing s conn (user_or_default o.user_id)).0 ≡ ok tt
        → Keeps s conn (user_or_default o.user_id) (enroll_user F C S o s)
    enroll_user-Keeps h =
        subst (Keeps s conn (user_or_default o.user_id)) (sym enroll_user-enroll)
          (enroll-Keeps s conn (user_or_default o.user_id) h)

    -- If there is no error, the key was written and registered.
    pub enroll_user-done :
        (enroll_user F C S o s).result ≡ ok tt
        → ((writing s conn (user_or_default o.user_id)).0 ≡ ok tt)
          × ((registering s conn (user_or_default o.user_id)).0 ≡ ok tt)
    enroll_user-done h =
        enroll-done s conn (user_or_default o.user_id)
          (ap (λ (e : Enrolled F C S). e.result) (sym enroll_user-enroll) ∙ h)
