-- ===== src/Common/Lists.antt =====
-- Lists measured and cut by native numbers, under the library's names.
use Prim.Native.Nat.{ℕ, zero, suc, ◌+◌, ◌-◌, ◌≤◌, ◌<◌, min}
use mathlib.Core.Path.{◌≡◌, refl, ap}
use mathlib.Core.Option.{Option, none, some}
use mathlib.Core.List.{List, [], ◌∷◌, ◌++◌}
use native.Mathlib.Omega.{arith}

abbrev pub Bytes : Type 0
Bytes = List ℕ

module _ {ℓ} {A : Type ℓ} where
  abbrev pub length : List A → ℕ
  length [] = 0
  length (x ∷ xs) = suc (length xs)

  abbrev pub take : ℕ → List A → List A
  take zero xs = []
  take (suc n) [] = []
  take (suc n) (x ∷ xs) = x ∷ take n xs

  abbrev pub drop : ℕ → List A → List A
  drop zero xs = xs
  drop (suc n) [] = []
  drop (suc n) (x ∷ xs) = drop n xs

  abbrev pub get_elem? : List A → ℕ → Option A
  get_elem? [] i = none
  get_elem? (x ∷ xs) zero = some x
  get_elem? (x ∷ xs) (suc i) = get_elem? xs i

  abbrev pub replicate : ℕ → A → List A
  replicate zero a = []
  replicate (suc n) a = a ∷ replicate n a

  abbrev pub All {κ} : (A → Type κ) → List A → Type κ
  All P [] = Unit
  All P (x ∷ xs) = P x × All P xs

  pub length-append : (xs ys : List A) → length (xs ++ ys) ≡ length xs + length ys
  length-append [] ys = omega arith
  length-append (x ∷ xs) ys = omega (arith, length-append xs ys)

module _ {ℓ} {A : Type ℓ} where
  pub take-append : (xs ys : List A) → take (length xs) (xs ++ ys) ≡ xs
  take-append [] ys = refl
  take-append (x ∷ xs) ys = ap (◌∷◌ x) (take-append xs ys)

  pub drop-append : (xs ys : List A) → drop (length xs) (xs ++ ys) ≡ ys
  drop-append [] ys = refl
  drop-append (x ∷ xs) ys = drop-append xs ys

  pub take-append-drop : (n : ℕ) (xs : List A) → take n xs ++ drop n xs ≡ xs
  take-append-drop zero xs = refl
  take-append-drop (suc n) [] = refl
  take-append-drop (suc n) (x ∷ xs) = ap (◌∷◌ x) (take-append-drop n xs)

  pub length-take : (n : ℕ) (xs : List A) → length (take n xs) ≡ min n (length xs)
  length-take zero xs = omega arith
  length-take (suc n) [] = omega arith
  length-take (suc n) (x ∷ xs) = omega (arith, length-take n xs)

  pub length-drop : (n : ℕ) (xs : List A) → length (drop n xs) ≡ length xs - n
  length-drop zero xs = omega arith
  length-drop (suc n) [] = omega arith
  length-drop (suc n) (x ∷ xs) = omega (arith, length-drop n xs)

  -- Two lists cut at the same length agree piece by piece.
  pub append_inj :
      (xs ys us vs : List A) → length xs ≡ length us → xs ++ ys ≡ us ++ vs → (xs ≡ us) × (ys ≡ vs)
  append_inj [] ys [] vs n e = (refl, e)
  append_inj [] ys (u ∷ us) vs n e = absurd (omega arith)
  append_inj (x ∷ xs) ys [] vs n e = absurd (omega arith)
  append_inj (x ∷ xs) ys (u ∷ us) vs n e = ground (arith, append_inj xs ys us vs)

  -- Two ways to cut one list, the first cut not behind the second.
  pub append_split_le :
      (xs ys us vs : List A)
      → length us ≤ length xs
      → xs ++ ys ≡ us ++ vs
      → (zs : List A) × (xs ≡ us ++ zs) × (zs ++ ys ≡ vs)
  append_split_le xs ys [] vs h e = (xs, refl, e)
  append_split_le [] ys (u ∷ us) vs h e = absurd (omega arith)
  append_split_le (x ∷ xs) ys (u ∷ us) vs h e =
      let (zs, front, back) = append_split_le xs ys us vs (omega arith) (cc) in (zs, cc, back)

  -- Two ways to cut one list, the first cut before the second.
  pub append_split_lt :
      (xs ys us vs : List A)
      → length xs < length us
      → xs ++ ys ≡ us ++ vs
      → (z : A) × (zs : List A) × (xs ++ (z ∷ zs) ≡ us)
  append_split_lt [] ys [] vs h e = absurd (omega arith)
  append_split_lt [] ys (u ∷ us) vs h e = (u, us, refl)
  append_split_lt (x ∷ xs) ys [] vs h e = absurd (omega arith)
  append_split_lt (x ∷ xs) ys (u ∷ us) vs h e =
      let (z, zs, same) = append_split_lt xs ys us vs (omega arith) (cc) in (z, zs, cc)
