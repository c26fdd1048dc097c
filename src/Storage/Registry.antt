-- ===== src/Storage/Registry.antt =====
-- src/storage.rs: the registry as a map from user ids to keys, as far as its statements succeed.
use zkp_verifier.Common.{
  ◌≡◌, refl, ◌≢◌, sym, ap, ◌∙◌, String, Bool, true, false, Option, none, some, [], ◌∷◌, ok, map_err,
  Bytes, ◌==◌, string_eq, >>=-eq-ok, map_err-eq-ok, ok_inj, Bool-cases, ==_refl, subst, inl, inr,
  if◌then◌else◌, List, All, All-of_contains,
}
use zkp_verifier.Common.Int.{ℤ}
use zkp_verifier.HashMap.{is_some}
use zkp_verifier.Curve.{Curve, IsGroup, IsEncoding}
use zkp_verifier.Database.{Rusqlite, text, blob, integer}
use zkp_verifier.Engine.{public_to_bytes, public_from_bytes}
use zkp_verifier.Engine.Complete.{public_from_bytes-to_bytes}
use zkp_verifier.Proof
use zkp_verifier.Storage.{
  database_error, decoding_error, upsert_user, delete_user, select_key, decode_key, get_public_key,
  select_ids, register, remove, is_registered, db,
}
use zkp_verifier.Storage.Sql.{IsSql}

module _ (S : Rusqlite) (C : Curve) (sql : IsSql S) where
  -- A lookup that succeeds decodes the row of the user.
  pub get_public_key-row :
      (c : S.Connection) (u : String) (found : Option C.Point)
      → get_public_key S C c u ≡ ok found
      → decode_key C (sql.row c u) ≡ ok found
  unfolding get_public_key
  get_public_key-row c u found h =
      let (bytes, read, decoded) = >>=-eq-ok (db (S.query_blob c select_key (text u ∷ []))) _ h in
      rw (← sql.query_blob-row c u bytes (map_err-eq-ok database_error _ read)) decoded

  pub decode_key-is_some :
      (bytes : Option Bytes) (found : Option C.Point)
      → decode_key C bytes ≡ ok found
      → is_some bytes ≡ is_some found
  unfolding decode_key
  decode_key-is_some none found h = ap is_some (ok_inj h)
  decode_key-is_some (some bytes) found h =
      let (pk, _, same) =
        >>=-eq-ok (map_err (λ e. decoding_error (Proof.display e)) (public_from_bytes C bytes)) _
          h in
      ap is_some (ok_inj same)

  -- If `is_registered` and `get_public_key` both succeed, the first answers `true` exactly if the
  -- second finds a key.
  pub is_registered-get_public_key :
      (c : S.Connection) (u : String) (b : Bool) (found : Option C.Point)
      → is_registered S c u ≡ ok b
      → get_public_key S C c u ≡ ok found
      → b ≡ is_some found
  unfolding is_registered
  is_registered-get_public_key c u b found hb hf =
      sql.exists-row c u b (map_err-eq-ok database_error _ hb)
      ∙ decode_key-is_some (sql.row c u) found (get_public_key-row c u found hf)

  pub decode_key-to_bytes :
      (g : IsGroup C)
      → IsEncoding C g
      → (pk : C.Point) → pk ≢ g.identity
      → decode_key C (some (public_to_bytes C pk)) ≡ ok (some pk)
  unfolding decode_key
  decode_key-to_bytes g enc pk key = rw (public_from_bytes-to_bytes C g enc pk key)

  module _ (g : IsGroup C) (enc : IsEncoding C g) (c : S.Connection) (u : String) (pk : C.Point)
      (now : ℤ) (key : pk ≢ g.identity) (done : (register S C c u pk now).0 ≡ ok tt) where
    pub row-register :
        (j : String)
        → sql.row (register S C c u pk now).1 j
          ≡ (if u == j then some (public_to_bytes C pk) else sql.row c j)
    unfolding register
    row-register j =
        let bytes = public_to_bytes C pk in
        let (n, executed, _) =
          >>=-eq-ok (db (S.execute c upsert_user (text u ∷ blob bytes ∷ integer now ∷ [])).0) _
            done in
        sql.row-upsert c u j bytes now n (map_err-eq-ok database_error _ executed)

    -- The registered user's key is found, if the lookup succeeds.
    pub registered_key :
        (found : Option C.Point)
        → get_public_key S C (register S C c u pk now).1 u ≡ ok found
        → found ≡ some pk
    registered_key found h = ok_inj (
        sym (get_public_key-row (register S C c u pk now).1 u found h)
        ∙ ap (decode_key C) (rw (==_refl u) at (row-register u))
        ∙ decode_key-to_bytes g enc pk key)

    other_key :
        (j : String) (before after : Option C.Point)
        → (u == j) ≡ false
        → get_public_key S C c j ≡ ok before
        → get_public_key S C (register S C c u pk now).1 j ≡ ok after
        → after ≡ before
    other_key j before after other hb ha = ok_inj (
        sym (get_public_key-row (register S C c u pk now).1 j after ha)
        ∙ ap (decode_key C) (rw other at (row-register j))
        ∙ get_public_key-row c j before hb)

  module _ (c : S.Connection) (u j : String) (before after : Option C.Point)
      (hb : get_public_key S C c j ≡ ok before) where
    -- After a successful `register` of a key that is not the identity, a lookup that succeeds gives
    -- that key for the user, and for any other user what a successful lookup gave before.
    pub get_public_key-register :
        (g : IsGroup C)
        → IsEncoding C g
        → (pk : C.Point) (now : ℤ) → pk ≢ g.identity
        → (register S C c u pk now).0 ≡ ok tt
        → get_public_key S C (register S C c u pk now).1 j ≡ ok after
        → after ≡ (if u == j then some pk else before)
    get_public_key-register g enc pk now key done ha = elim (Bool-cases (u == j)) [
      | inl same ↦
          let to_user : get_public_key S C (register S C c u pk now).1 u ≡ ok after =
            subst (λ k. get_public_key S C (register S C c u pk now).1 k ≡ ok after)
              (sym ((string_eq.beq_iff u j).0 same)) ha in
          rw same (registered_key g enc c u pk now key done after to_user)
      | inr other ↦ rw other (other_key g enc c u pk now key done j before after other hb ha)
    ]

    -- After a successful `remove`, a lookup that succeeds gives no key for the user, and for any
    -- other user what a successful lookup gave before.
    pub get_public_key-remove :
        (removed : Bool)
        → (remove S c u).0 ≡ ok removed
        → get_public_key S C (remove S c u).1 j ≡ ok after
        → after ≡ (if u == j then none else before)
    unfolding remove
    get_public_key-remove removed done ha =
        let (n, executed, _) = >>=-eq-ok (db (S.execute c delete_user (text u ∷ [])).0) _ done in
        let updated = sql.row-delete c u j n (map_err-eq-ok database_error _ executed) in
        let read = get_public_key-row (remove S c u).1 j after ha in
        elim (Bool-cases (u == j)) [
          | inl same ↦ rw same (
              ok_inj
                (sym read ∙ ap (decode_key C) (rw same at updated) ∙ unfold decode_key in refl))
          | inr other ↦ rw other (
              ok_inj (
                sym read
                ∙ ap (decode_key C) (rw other at updated)
                ∙ get_public_key-row c j before hb))
        ]

  -- The users that are listed have rows.
  pub listed-row :
      (c : S.Connection) (users : List String)
      → S.query_texts c select_ids [] ≡ ok users
      → All (λ u. is_some (sql.row c u) ≡ true) users
  listed-row c users h =
      All-of_contains (λ u. is_some (sql.row c u) ≡ true) users
        (λ u there. sym (sql.ids-row c u) ∙ rw (← sql.query_texts-ids c users h) there)

  -- A `register` that fails leaves every lookup as it was.
  pub row-register_failed :
      (c : S.Connection) (u : String) (pk : C.Point) (now : ℤ) (j : String)
      → (register S C c u pk now).0 ≢ ok tt
      → sql.row (register S C c u pk now).1 j ≡ sql.row c j
  unfolding register
  row-register_failed c u pk now j failed =
      sql.row-failed c upsert_user (text u ∷ blob (public_to_bytes C pk) ∷ integer now ∷ []) j
        (λ n e. failed (rw e refl))

  pub get_public_key-register_failed :
      (c : S.Connection) (u : String) (pk : C.Point) (now : ℤ) (j : String)
      (before after : Option C.Point)
      → (register S C c u pk now).0 ≢ ok tt
      → get_public_key S C c j ≡ ok before
      → get_public_key S C (register S C c u pk now).1 j ≡ ok after
      → after ≡ before
  get_public_key-register_failed c u pk now j before after failed hb ha = ok_inj (
      sym (get_public_key-row (register S C c u pk now).1 j after ha)
      ∙ ap (decode_key C) (row-register_failed c u pk now j failed)
      ∙ get_public_key-row c j before hb)

  -- `is_registered` tells the truth after a `register` that succeeds.
  pub is_registered-register :
      (c : S.Connection) (u : String) (pk : C.Point) (now : ℤ) (b : Bool)
      → (register S C c u pk now).0 ≡ ok tt
      → is_registered S (register S C c u pk now).1 u ≡ ok b
      → b ≡ true
  unfolding register is_registered
  is_registered-register c u pk now b done h =
      let bytes = public_to_bytes C pk in
      let (n, executed, _) =
        >>=-eq-ok (db (S.execute c upsert_user (text u ∷ blob bytes ∷ integer now ∷ [])).0) _
          done in
      let updated = sql.row-upsert c u u bytes now n (map_err-eq-ok database_error _ executed) in
      sql.exists-row (register S C c u pk now).1 u b (map_err-eq-ok database_error _ h)
      ∙ ap is_some (rw (==_refl u) at updated)
