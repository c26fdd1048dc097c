-- ===== src/Storage/Map/Holds.antt =====
-- src/storage.rs: the rows of the registry against the keys that they stand for.
use zkp_verifier.Common.{
  ◌≡◌, ◌≢◌, refl, ap, ◌∙◌, String, Bool, true, false, Option, none, some, ok, Bytes, ◌==◌,
  string_eq, if◌then◌else◌, Bool-cases, inl, inr,
}
use zkp_verifier.HashMap.{is_some}
use zkp_verifier.Curve.{Curve, IsGroup, IsEncoding}
use zkp_verifier.Database.{Rusqlite}
use zkp_verifier.Engine.{public_to_bytes}
use zkp_verifier.Storage.{decode_key}
use zkp_verifier.Storage.Sql.{IsSql}
use zkp_verifier.Storage.Registry.{decode_key-to_bytes}
use zkp_verifier.Storage.Map.{Keys, update, IsUsers}

module _ (S : Rusqlite) (C : Curve) (sql : IsSql S) (g : IsGroup C) (enc : IsEncoding C g) where
  abbrev pub key_bytes : Option C.Point → Option Bytes
  key_bytes none = none
  key_bytes (some pk) = some (public_to_bytes C pk)

  -- The rows hold the bytes of the keys, none of which is the identity.
  pub record Holds (c : S.Connection) (f : Keys C) : Type 0 where
    pub rows : (u : String) → sql.row c u ≡ key_bytes (f u)
    pub keys : (u : String) (pk : C.Point) → f u ≡ some pk → pk ≢ g.identity

  is_some-key_bytes : (w : Option C.Point) → is_some (key_bytes w) ≡ is_some w
  is_some-key_bytes none = refl
  is_some-key_bytes (some pk) = refl

  decode_key-key_bytes :
      (w : Option C.Point)
      → ((pk : C.Point) → w ≡ some pk → pk ≢ g.identity)
      → decode_key C (key_bytes w) ≡ ok w
  decode_key-key_bytes none h = unfold decode_key in refl
  decode_key-key_bytes (some pk) h = decode_key-to_bytes S C sql g enc pk (h pk refl)

  key_bytes-if :
      (b : Bool) (w v : Option C.Point)
      → (if b then key_bytes w else key_bytes v) ≡ key_bytes (if b then w else v)
  key_bytes-if true w v = refl
  key_bytes-if false w v = refl

  module _ (c : S.Connection) (f : Keys C) (h : Holds c f) where
    pub has_row : (u : String) → is_some (sql.row c u) ≡ is_some (f u)
    has_row u = ap is_some (h.rows u) ∙ is_some-key_bytes (f u)

    pub decoded : (u : String) → decode_key C (sql.row c u) ≡ ok (f u)
    decoded u = ap (decode_key C) (h.rows u) ∙ decode_key-key_bytes (f u) (h.keys u)

    pub ids-IsUsers : IsUsers C f (sql.ids c)
    ids-IsUsers = (sql.ids-NoRepeats c, λ u. sql.ids-row c u ∙ has_row u)

    pub update-Holds :
        (c' : S.Connection) (u : String) (w : Option C.Point)
        → ((pk : C.Point) → w ≡ some pk → pk ≢ g.identity)
        → ((j : String) → sql.row c' j ≡ (if u == j then key_bytes w else sql.row c j))
        → Holds c' (update C f u w)
    update-Holds c' u w key changed = record {
      rows = λ j.
          changed j
          ∙ ap (λ r. if u == j then key_bytes w else r) (h.rows j)
          ∙ key_bytes-if (u == j) w (f j);
      keys = λ j pk e. elim (Bool-cases (u == j)) [
        | inl same ↦ key pk (rw same at e)
        | inr other ↦ h.keys j pk (rw other at e)
      ];
    }

    pub same-Holds : (c' : S.Connection) → ((j : String) → sql.row c' j ≡ sql.row c j) → Holds c' f
    same-Holds c' kept = record { rows = λ j. kept j ∙ h.rows j; keys = h.keys }
