-- ===== src/Storage/Map/Refines.antt =====
-- src/storage.rs: the methods of `UserRegistry` implement the function from user ids to keys.
use zkp_verifier.Common.{
  ℕ, ◌≡◌, ◌≢◌, ◌>>=◌, refl, sym, ap, subst, ◌∙◌, String, Bool, Option, none, some, List, [], ◌∷◌,
  Outcome, ok, err, panic, Bytes, All, string_eq, map_err-eq-ok, >>=-eq-ok, ok_inj,
}
use mathlib.Core.Option.{some-injective}
use zkp_verifier.Common.Int.{ℤ}
use zkp_verifier.Curve.{Curve, IsGroup, IsEncoding}
use zkp_verifier.Database.{Rusqlite, text}
use zkp_verifier.Engine.{public_to_bytes}
use zkp_verifier.Storage.{
  StorageError, database_error, decoding_error, get_public_key, register, remove, is_registered,
  list_users, count, in_memory, init, db, decode_key, delete_user, create_table, select_key,
}
use zkp_verifier.Storage.Sql.{IsSql}
use zkp_verifier.Storage.Sqlite.{unique_failed, IsSqlite}
use zkp_verifier.Storage.Sqlite.Written.{IsSql-of_IsSqlite, upsert_user-ne-unique_failed}
use zkp_verifier.Storage.Registry.{get_public_key-row, row-register, row-register_failed}
use zkp_verifier.Storage.Map.{
  Op, registers, removes, looks_up, asks, lists, counts, registered, removed, known, found, listed,
  counted, Keys, next, Tells, Meets, perform, history,
}
use zkp_verifier.Storage.Map.Holds.{Holds, has_row, decoded, ids-IsUsers, update-Holds, same-Holds}

-- An error that `?` wraps.
database_error_of :
    (r : Outcome String ℕ) {e : String}
    → (do _ ← db r; ok (tt {0})) ≡ err (database_error e)
    → r ≡ err e
database_error_of (ok n) h = cc
database_error_of (err x) h = cc
database_error_of panic h = cc

module _ (C : Curve) (g : IsGroup C) where
  -- A call does not register the identity.
  abbrev pub HasKey : Op C → Type 0
  HasKey (registers u pk now) = pk ≢ g.identity
  HasKey _ = Unit

module _ (S : Rusqlite) (C : Curve) (sqlite : IsSqlite S) (g : IsGroup C)
    (enc : IsEncoding C g) where
  abbrev sql : IsSql S
  sql = IsSql-of_IsSqlite S sqlite

  module _ (c : S.Connection) (f : Keys C) (h : Holds S C sql g enc c f) where
    register-ne-unique_failed :
        (u : String) (pk : C.Point) (now : ℤ)
        → (register S C c u pk now).0 ≢ err (database_error unique_failed)
    unfolding register
    register-ne-unique_failed u pk now = λ failed.
        upsert_user-ne-unique_failed S sqlite c u (public_to_bytes C pk) now
          (database_error_of _ failed)

    registers_lem :
        (u : String) (pk : C.Point) (now : ℤ) (r : Outcome StorageError (Unit {0}))
        → pk ≢ g.identity
        → (register S C c u pk now).0 ≡ r
        → Tells C f (registers u pk now) (registered r)
          × Holds S C sql g enc
              (register S C c u pk now).1
              (next C f (registers u pk now) (registered r))
    registers_lem u pk now (ok tt) key e = (
      tt,
      update-Holds S C sql g enc c f h _ u (some pk)
          (λ q same. subst (λ k. k ≢ g.identity) (some-injective _ _ same) key)
          (row-register S C sql g enc c u pk now key e),
    )
    registers_lem u pk now (err x) key e = (
      λ unique. register-ne-unique_failed u pk now (e ∙ ap err unique),
      same-Holds S C sql g enc c f h _ (λ j. row-register_failed S C sql c u pk now j (λ done. cc)),
    )
    registers_lem u pk now panic key e = (
      tt,
      same-Holds S C sql g enc c f h _ (λ j. row-register_failed S C sql c u pk now j (λ done. cc)),
    )

    removes_lem :
        (u : String) (r : Outcome StorageError Bool)
        → (remove S c u).0 ≡ r
        → Tells C f (removes u) (removed r)
          × Holds S C sql g enc (remove S c u).1 (next C f (removes u) (removed r))
    unfolding remove
    removes_lem u (ok b) e =
        let (n, executed, same) = >>=-eq-ok (db (S.execute c delete_user (text u ∷ [])).0) _ e in
        let deleted = map_err-eq-ok database_error _ executed in
        (
          sym (ok_inj {E = StorageError} same)
              ∙ sql.delete_count c u n deleted
              ∙ has_row S C sql g enc c f h u,
          update-Holds S C sql g enc c f h _ u none (λ q same. cc)
              (λ j. sql.row-delete c u j n deleted),
        )
    removes_lem u (err x) e = (
      tt,
      same-Holds S C sql g enc c f h _
          (λ j. sql.row-failed c delete_user (text u ∷ []) j (λ n done. cc (rw done at e))),
    )
    removes_lem u panic e = (
      tt,
      same-Holds S C sql g enc c f h _
          (λ j. sql.row-failed c delete_user (text u ∷ []) j (λ n done. cc (rw done at e))),
    )

    never_decoding :
        (u e : String) (q : Outcome String (Option Bytes))
        → S.query_blob c select_key (text u ∷ []) ≡ q
        → get_public_key S C c u ≢ err (decoding_error e)
    unfolding get_public_key
    never_decoding u e (ok bytes) read = λ failed. cc (
      decoded S C sql g enc c f h u,
      ap (decode_key C) (sql.query_blob-row c u bytes read),
      rw read at failed,
    )
    never_decoding u e (err x) read = λ failed. cc (rw read at failed)
    never_decoding u e panic read = λ failed. cc (rw read at failed)

    looks_up_lem :
        (u : String) (r : Outcome StorageError (Option C.Point))
        → get_public_key S C c u ≡ r
        → Tells C f (looks_up u) (found r)
    looks_up_lem u (ok key) e =
        ok_inj (sym (get_public_key-row S C sql c u key e) ∙ decoded S C sql g enc c f h u)
    looks_up_lem u (err (database_error x)) e = tt
    looks_up_lem u (err (decoding_error x)) e = never_decoding u x _ refl e
    looks_up_lem u panic e = tt

    asks_lem :
        (u : String) (r : Outcome StorageError Bool)
        → is_registered S c u ≡ r
        → Tells C f (asks u) (known r)
    unfolding is_registered
    asks_lem u (ok b) e =
        sql.exists-row c u b (map_err-eq-ok database_error _ e) ∙ has_row S C sql g enc c f h u
    asks_lem u (err x) e = tt
    asks_lem u panic e = tt

    lists_lem :
        (r : Outcome StorageError (List String)) → list_users S c ≡ r → Tells C f lists (listed r)
    unfolding list_users
    lists_lem (ok users) e =
        rw (sql.query_texts-ids c users (map_err-eq-ok database_error _ e))
          (ids-IsUsers S C sql g enc c f h)
    lists_lem (err x) e = tt
    lists_lem panic e = tt

    counts_lem : (r : Outcome StorageError ℕ) → count S c ≡ r → Tells C f counts (counted r)
    unfolding count
    counts_lem (ok n) e = (
      sql.ids c,
      ids-IsUsers S C sql g enc c f h,
      sql.query_count-ids c n (map_err-eq-ok database_error _ e),
    )
    counts_lem (err x) e = tt
    counts_lem panic e = tt

    -- One call, with what it returns and the database that it leaves.
    perform_lem :
        (o : Op C)
        → HasKey C g o
        → Tells C f o (perform C S c o).0
          × Holds S C sql g enc (perform C S c o).1 (next C f o (perform C S c o).0)
    unfolding perform
    perform_lem (registers u pk now) key = registers_lem u pk now _ key refl
    perform_lem (removes u) key = removes_lem u _ refl
    perform_lem (looks_up u) key = (looks_up_lem u _ refl, h)
    perform_lem (asks u) key = (asks_lem u _ refl, h)
    perform_lem lists key = (lists_lem _ refl, h)
    perform_lem counts key = (counts_lem _ refl, h)

  history-Meets :
      (os : List (Op C)) (c : S.Connection) (f : Keys C)
      → Holds S C sql g enc c f
      → All (HasKey C g) os
      → Meets C f (history C S c os)
  unfolding history
  history-Meets [] c f h keys = tt
  history-Meets (o ∷ os) c f h (key, keys) =
      let (tells, holds) = perform_lem c f h o key in (tells, history-Meets os _ _ holds keys)

  new-Holds : (c : S.Connection) → in_memory S ≡ ok c → Holds S C sql g enc c (λ _. none)
  unfolding in_memory init
  new-Holds c e =
      let (conn, opened, made) = >>=-eq-ok (db S.open_memory) _ e in
      let (n, executed, same) = >>=-eq-ok (db (S.execute conn create_table []).0) _ made in
      record {
        rows = λ u.
            ap (λ d. sql.row d u) (sym (ok_inj {E = StorageError} same))
            ∙ sql.row-create conn u
            ∙ sql.row-open_memory conn u (map_err-eq-ok database_error _ opened);
        keys = λ u pk none_is. cc;
      }

  -- What the methods of a new registry in memory return, in any sequence of calls, of which each
  -- may fail, is what a function from user ids to keys tells: a `register` that succeeds sets the
  -- key of its user, whether or not it has one, and none fails by the primary key; a `remove` that
  -- succeeds drops it and tells whether there was one; a lookup that succeeds gives the key and
  -- never fails because the key cannot be decoded; `is_registered` tells whether there is a key;
  -- `list_users` lists each user with a key once, and `count` counts them; a call that fails
  -- changes nothing. No key that is registered is the identity. The database does with every
  -- statement of a small grammar, which contains the program's statements by their text, what
  -- SQLite documents of it.
  pub history-in_memory :
      (c : S.Connection) (os : List (Op C))
      → in_memory S ≡ ok c
      → All (HasKey C g) os
      → Meets C (λ _. none) (history C S c os)
  history-in_memory c os e keys = history-Meets os c _ (new-Holds c e) keys
