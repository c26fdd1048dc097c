-- ===== src/Programs/NoPanic.antt =====
-- src/bin/enroll_user.rs: its `unwrap` and its `assert!`.
use zkp_verifier.Common.{
  ◌≡◌, ◌≢◌, refl, String, Bool, true, false, Option, none, some, List, [], ◌∷◌, Outcome, ok, err,
  panic, All, Bytes, map_err-eq-ok, Bool-cases, inl, inr,
}
use zkp_verifier.Common.Int.{ℤ}
use zkp_verifier.HashMap.{is_some}
use zkp_verifier.Curve.{Curve}
use zkp_verifier.Database.{Rusqlite}
use zkp_verifier.FileSystem.{FileSystem}
use zkp_verifier.Engine.{public_key}
use zkp_verifier.Storage.{
  StorageError, database_error, list_users, get_public_key, register, is_registered,
}
use zkp_verifier.Storage.Sql.{IsSql}
use zkp_verifier.Storage.Registry.{
  listed-row, get_public_key-row, decode_key-is_some, is_registered-register,
}
use zkp_verifier.Cli.Servers.{EnrollUserOptions}
use zkp_verifier.Programs.{Session}
use zkp_verifier.Programs.Enroll.{
  user_or_default, list_keys, after_list, assert_registered, after_register, after_write, enroll,
  after_open, enroll_user,
}
use zkp_verifier.Programs.Enrolled.{writing, registering}

module _ (F : FileSystem) (C : Curve) (S : Rusqlite) (sql : IsSql S)
    (lookup_ends : (c : S.Connection) (u : String) → get_public_key S C c u ≢ panic)
    (list_ends : (c : S.Connection) → list_users S c ≢ panic)
    (register_ends : (c : S.Connection) (u : String) (pk : C.Point) (now : ℤ)
      → (register S C c u pk now).0 ≢ panic)
    (exists_ends : (c : S.Connection) (u : String) → is_registered S c u ≢ panic)
    (write_ends : (d : F.Disk) (path : String) (text : Bytes)
      → (F.write d path text).0 ≢ panic) where
  by_lookup :
      (conn : S.Connection) (u : String) (users : List String)
      (r : Outcome StorageError (Option C.Point))
      → is_some (sql.row conn u) ≡ true
      → (list_keys F C S conn users).1 ≢ panic
      → get_public_key S C conn u ≡ r
      → (list_keys F C S conn (u ∷ users)).1 ≢ panic
  unfolding list_keys
  by_lookup conn u users (ok (some pk)) known ih e = rw (e, list_keys) ih
  by_lookup conn u users (ok none) known ih e =
      let there =
        decode_key-is_some S C sql (sql.row conn u) none
          (get_public_key-row S C sql conn u none e) in
      cc (known, there)
  by_lookup conn u users (err x) known ih e = rw (e, list_keys) (λ h. cc h)
  by_lookup conn u users panic known ih e = absurd (lookup_ends conn u e)

  list_keys-ne-panic :
      (conn : S.Connection) (users : List String)
      → All (λ u. is_some (sql.row conn u) ≡ true) users
      → (list_keys F C S conn users).1 ≢ panic
  list_keys-ne-panic conn [] h = unfold list_keys in λ e. cc e
  list_keys-ne-panic conn (u ∷ users) (known, h) =
      by_lookup conn u users (get_public_key S C conn u) known (list_keys-ne-panic conn users h)
        refl

  after_list-ne-panic :
      (disk : F.Disk) (conn : S.Connection) (r : Outcome StorageError (List String))
      → list_users S conn ≡ r
      → (after_list F C S disk conn r).result ≢ panic
  unfolding list_users
  after_list-ne-panic disk conn (ok users) e =
      list_keys-ne-panic conn users
        (listed-row S C sql conn users (map_err-eq-ok database_error _ e))
  after_list-ne-panic disk conn (err x) e = λ h. cc h
  after_list-ne-panic disk conn panic e = absurd (list_ends conn e)

  assert_registered-ne-panic :
      (conn : S.Connection) (u : String) (r : Outcome StorageError Bool)
      → is_registered S conn u ≡ r
      → ((b : Bool) → is_registered S conn u ≡ ok b → b ≡ true)
      → assert_registered F C S r ≢ panic
  assert_registered-ne-panic conn u (ok true) e tells = λ h. cc h
  assert_registered-ne-panic conn u (ok false) e tells = cc (tells false e)
  assert_registered-ne-panic conn u (err x) e tells = λ h. cc h
  assert_registered-ne-panic conn u panic e tells = absurd (exists_ends conn u e)

  after_register-ne-panic :
      (disk : F.Disk) (u : String) (r : Outcome StorageError (Unit {0}) × S.Connection)
      → r.0 ≢ panic
      → (r.0 ≡ ok tt → (b : Bool) → is_registered S r.1 u ≡ ok b → b ≡ true)
      → (after_register F C S disk u r).result ≢ panic
  after_register-ne-panic disk u (ok _, conn) ends tells =
      assert_registered-ne-panic conn u (is_registered S conn u) refl (tells refl)
  after_register-ne-panic disk u (err x, conn) ends tells = λ h. cc h
  after_register-ne-panic disk u (panic, conn) ends tells = absurd (ends refl)

  module _ (s : Session F C S) (conn : S.Connection) where
    after_write-ne-panic :
        (u : String) (w : Outcome String (Unit {0}) × F.Disk)
        → w.0 ≢ panic
        → (after_write F C S s conn u w).result ≢ panic
    after_write-ne-panic u (ok _, disk) ends =
        after_register-ne-panic disk u (registering F C S s conn u)
          (register_ends conn u (public_key C s.fresh_key) s.now)
          (λ done b h.
            is_registered-register S C sql conn u (public_key C s.fresh_key) s.now b done h)
    after_write-ne-panic u (err x, disk) ends = λ h. cc h
    after_write-ne-panic u (panic, disk) ends = absurd (ends refl)

    enroll-ne-panic : (u : String) → (enroll F C S s conn u).result ≢ panic
    unfolding enroll
    enroll-ne-panic u = after_write-ne-panic u (writing F C S s conn u) (write_ends _ _ _)

  after_open-ne-panic :
      (o : EnrollUserOptions) (s : Session F C S) (r : Outcome StorageError S.Connection)
      → r ≢ panic
      → (after_open F C S o s r).result ≢ panic
  after_open-ne-panic o s (ok conn) ends = elim (Bool-cases o.list) [
    | inl all ↦ simp all (after_list-ne-panic s.disk conn (list_users S conn) refl)
    | inr one ↦ simp one (enroll-ne-panic s conn (user_or_default o.user_id))
  ]
  after_open-ne-panic o s (err x) ends = λ h. cc h
  after_open-ne-panic o s panic ends = absurd (ends refl)

  -- `enroll_user` does not panic, with any options: the key that its list unwraps is there, and its
  -- assertion holds. The calls of the crates and of the disk do not panic on their own, and the
  -- laws of SQL hold.
  pub enroll_user-ne-panic :
      (o : EnrollUserOptions) (s : Session F C S)
      → s.opened ≢ panic
      → (enroll_user F C S o s).result ≢ panic
  unfolding enroll_user
  enroll_user-ne-panic o s ends = after_open-ne-panic o s s.opened ends
