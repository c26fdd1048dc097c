-- ===== src/Common/Members.antt =====
-- Membership in a list as a test, and lists in which nothing stands twice.
use mathlib.Core.Path.{◌≡◌, refl}
use mathlib.Core.Bool.{Bool, true, false}
use mathlib.Core.List.{List, [], ◌∷◌}
use native.Mathlib.Omega.{arith}
use zkp_verifier.Common.Bools.{if◌then◌else◌}
use zkp_verifier.Common.Lists.{All}
use zkp_verifier.Common.Equality.{Eq, ◌==◌, ==_refl}

module _ {ℓ} {A : Type ℓ} ⦃e : Eq A⦄ where
  abbrev pub contains : A → List A → Bool
  contains a [] = false
  contains a (x ∷ xs) = if x == a then true else contains a xs

  abbrev pub NoRepeats : List A → Type 0
  NoRepeats [] = Unit
  NoRepeats (x ∷ xs) = (contains x xs ≡ false) × NoRepeats xs

  pub All-of_contains {κ} :
      (P : A → Type κ) (xs : List A) → ((a : A) → contains a xs ≡ true → P a) → All P xs
  All-of_contains P [] h = tt
  All-of_contains P (x ∷ xs) h =
      (h x (rw (==_refl x) refl), All-of_contains P xs (λ a there. h a (ground arith)))
