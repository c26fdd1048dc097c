-- ===== src/Storage/Sqlite/Matching.antt =====
-- The ids that a `WHERE user_id = ?1` of src/storage.rs leaves.
use zkp_verifier.Common.{
  ◌≡◌, refl, ◌↔◌, String, true, false, List, [], ◌∷◌, string_eq, if◌then◌else◌, contains, NoRepeats,
  length, arith,
}
use zkp_verifier.Storage.Sqlite.{at_user, matching}

module _ (u : String) where
  pub matching-none : (ids : List String) → (matching at_user u ids ≡ []) ↔ (contains u ids ≡ false)
  matching-none [] = ground arith
  matching-none (j ∷ ids) = ground (arith, matching-none ids)

  pub contains-matching :
      (j : String) (ids : List String) → contains j (matching at_user u ids) ≡ true → u ≡ j
  contains-matching j [] h = cc
  contains-matching j (i ∷ ids) h =
      ground (arith, string_eq.beq_iff i u, string_eq.beq_iff i j, contains-matching j ids)

  pub length-matching :
      (ids : List String)
      → NoRepeats ids
      → length (matching at_user u ids) ≡ (if contains u ids then 1 else 0)
  length-matching [] h = refl
  length-matching (j ∷ ids) h =
      ground (arith, string_eq.beq_iff j u, length-matching ids, matching-none ids)
