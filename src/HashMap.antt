-- ===== src/HashMap.antt =====
-- The operations of `std::collections::HashMap` that the program uses, on an association list in
-- which no key stands twice.
use zkp_verifier.Common.{
  ◌≡◌, refl, Bool, true, false, Option, none, some, List, [], ◌∷◌, arith, Eq, ◌==◌, length, ◌+◌,
  if◌then◌else◌,
}

abbrev pub HashMap {ℓ κ} : Type ℓ → Type κ → Type (ℓ ⊔ κ)
HashMap K V = List (K × V)

-- What `retain` leaves of a value that is found.
abbrev pub keep_if {ℓ} : {V : Type ℓ} → (V → Bool) → Option V → Option V
keep_if f none = none
keep_if f (some v) = if f v then some v else none

abbrev pub is_some {ℓ} : {V : Type ℓ} → Option V → Bool
is_some none = false
is_some (some v) = true

module _ {ℓ κ} {K : Type ℓ} {V : Type κ} ⦃e : Eq K⦄ where
  unfoldable pub get : K → HashMap K V → Option V
  get k [] = none
  get k ((i, w) ∷ rest) = if i == k then some w else get k rest

  abbrev pub contains_key : K → HashMap K V → Bool
  contains_key k m = is_some (get k m)

  unfoldable pub insert : K → V → HashMap K V → HashMap K V
  insert k v [] = (k, v) ∷ []
  insert k v ((i, w) ∷ rest) = if i == k then (k, v) ∷ rest else (i, w) ∷ insert k v rest

  unfoldable pub retain : (V → Bool) → HashMap K V → HashMap K V
  retain f [] = []
  retain f ((i, w) ∷ m) = let kept = retain f m in if f w then (i, w) ∷ kept else kept

  abbrev pub NodupKeys : HashMap K V → Type κ
  NodupKeys [] = Unit
  NodupKeys ((k, _) ∷ m) = (get k m ≡ none) × NodupKeys m

  pub get-insert :
      (j k : K) (v : V) (m : HashMap K V)
      → get j (insert k v m) ≡ (if k == j then some v else get j m)
  unfolding get insert
  get-insert j k v [] = refl
  get-insert j k v ((i, w) ∷ m) =
      ground (arith, e.beq_iff k j, e.beq_iff i k, e.beq_iff i j, get-insert j k v m)

  pub get-retain-none :
      (f : V → Bool) (k : K) (m : HashMap K V) → get k m ≡ none → get k (retain f m) ≡ none
  unfolding get retain
  get-retain-none f k [] h = refl
  get-retain-none f k ((i, w) ∷ m) h = ground (arith, get-retain-none f k m)

  pub get-retain :
      (f : V → Bool) (k : K) (m : HashMap K V)
      → NodupKeys m
      → get k (retain f m) ≡ keep_if f (get k m)
  unfolding get retain
  get-retain f k [] h = refl
  get-retain f k ((i, w) ∷ m) (fresh, h) =
      ground (arith, e.beq_iff i k, get-retain f k m h, get-retain-none f k m)

  pub insert-NodupKeys : (k : K) (v : V) (m : HashMap K V) → NodupKeys m → NodupKeys (insert k v m)
  unfolding insert get
  insert-NodupKeys k v [] h = (refl, tt)
  insert-NodupKeys k v ((i, w) ∷ m) (fresh, h) =
      ground (arith, e.beq_iff i k, e.beq_iff k i, insert-NodupKeys k v m h, get-insert i k v m)

  pub retain-NodupKeys : (f : V → Bool) (m : HashMap K V) → NodupKeys m → NodupKeys (retain f m)
  unfolding retain
  retain-NodupKeys f [] h = tt
  retain-NodupKeys f ((i, w) ∷ m) (fresh, h) =
      ground (arith, retain-NodupKeys f m h, get-retain-none f i m fresh)

  pub length-insert :
      (k : K) (v : V) (m : HashMap K V) → get k m ≡ none → length (insert k v m) ≡ length m + 1
  unfolding insert get
  length-insert k v [] h = omega arith
  length-insert k v ((i, w) ∷ m) h = ground (arith, length-insert k v m)
