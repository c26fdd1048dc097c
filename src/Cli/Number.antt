-- ===== src/Cli/Number.antt =====
-- src/bin/kafka_verifier.rs and src/bin/kafka_prover.rs: the partition number of the command line, read
-- from decimal text.
use zkp_verifier.Common.{
  ℕ, zero, suc, ◌+◌, ◌*◌, ◌/◌, ◌%◌, ◌^◌, ◌≤◌, ◌<◌, ◌≡◌, refl, ap, subst, sym, ◌∙◌, String, ◌<>◌,
  false, some, List, [], ◌∷◌, ◌++◌, arith, ltb, nat_beq, Bool-cases, inl, inr,
}
use Prim.Native.Char.{code}
use mathlib.Core.List.{append_assoc, append-nil}
use text.Mathlib.TextLemmas.{nil-append, cons-append}
use zkp_verifier.Common.Int.{ℤ, pos, negsuc, pos_part, neg_part}
use zkp_verifier.Common.Show.{show_digit, show_rounds, show_ℕ, show_ℤ}
use zkp_verifier.Cli.Options.{codes, digits, digits_of, positive, negative, signed, or_zero, number}

codes-append : (s t : String) → codes (s <> t) ≡ codes s ++ codes t
codes-append String.[] t = ap codes (nil-append t)
codes-append (String.◌∷◌ c s) t =
    ap codes (cons-append c s t) ∙ ap (◌∷◌ (code c)) (codes-append s t)

codes-show_digit : (d : ℕ) → d < 10 → codes (show_digit d) ≡ (48 + d) ∷ []
codes-show_digit zero h = refl
codes-show_digit (suc zero) h = refl
codes-show_digit (suc (suc zero)) h = refl
codes-show_digit (suc (suc (suc zero))) h = refl
codes-show_digit (suc (suc (suc (suc zero)))) h = refl
codes-show_digit (suc (suc (suc (suc (suc zero))))) h = refl
codes-show_digit (suc (suc (suc (suc (suc (suc zero)))))) h = refl
codes-show_digit (suc (suc (suc (suc (suc (suc (suc zero))))))) h = refl
codes-show_digit (suc (suc (suc (suc (suc (suc (suc (suc zero)))))))) h = refl
codes-show_digit (suc (suc (suc (suc (suc (suc (suc (suc (suc zero))))))))) h = refl
codes-show_digit (suc (suc (suc (suc (suc (suc (suc (suc (suc (suc n)))))))))) h =
    absurd (omega arith)

-- A digit goes into the number that is read.
digits-digit : (n d : ℕ) (cs : List ℕ) → d < 10 → digits n ((48 + d) ∷ cs) ≡ digits (10 * n + d) cs
unfolding digits
digits-digit n d cs h = ground arith

digits-show_rounds :
    (fuel m : ℕ) (cs : List ℕ)
    → m < fuel
    → digits 0 (codes (show_rounds fuel m) ++ cs) ≡ digits m cs
unfolding show_rounds
digits-show_rounds zero m cs h = absurd (omega arith)
digits-show_rounds (suc fuel) m cs h = elim (Bool-cases (ltb m 10)) [
  | inl small ↦ rw small (
      ap (λ ds. digits 0 (ds ++ cs)) (codes-show_digit m (ground arith))
      ∙ digits-digit 0 m cs (ground arith)
      ∙ ap (λ n. digits n cs) (omega arith))
  | inr large ↦ rw large (
      ap (λ ds. digits 0 (ds ++ cs))
        (codes-append (show_rounds fuel (m / 10)) (show_digit (m % 10))
          ∙ ap (◌++◌ (codes (show_rounds fuel (m / 10)))) (codes-show_digit (m % 10) (omega arith)))
      ∙ ap (digits 0) (append_assoc (codes (show_rounds fuel (m / 10))) ((48 + m % 10) ∷ []) cs)
      ∙ digits-show_rounds fuel (m / 10) ((48 + m % 10) ∷ cs) (ground arith)
      ∙ digits-digit (m / 10) (m % 10) cs (omega arith)
      ∙ ap (λ n. digits n cs) (omega arith))
]

-- A text that begins with a digit.
record IsDecimal (cs : List ℕ) : Type 0 where
  head : ℕ
  tail : List ℕ
  is : cs ≡ head ∷ tail
  low : 48 ≤ head
  high : head < 58

IsDecimal-append : (cs ds : List ℕ) → IsDecimal cs → IsDecimal (cs ++ ds)
IsDecimal-append cs ds h = record {
  head = h.head;
  tail = h.tail ++ ds;
  is = ap (λ xs. xs ++ ds) h.is;
  low = h.low;
  high = h.high;
}

show_rounds-IsDecimal : (fuel m : ℕ) → m < fuel → IsDecimal (codes (show_rounds fuel m))
unfolding show_rounds
show_rounds-IsDecimal zero m h = absurd (omega arith)
show_rounds-IsDecimal (suc fuel) m h = elim (Bool-cases (ltb m 10)) [
  | inl small ↦ rw small (record {
    head = 48 + m;
    tail = [];
    is = codes-show_digit m (ground arith);
    low = omega arith;
    high = ground arith;
  })
  | inr large ↦ rw large (
      subst IsDecimal (sym (codes-append (show_rounds fuel (m / 10)) (show_digit (m % 10))))
        (IsDecimal-append _ _ (show_rounds-IsDecimal fuel (m / 10) (ground arith))))
]

module _ (m : ℕ) where
  decimal : IsDecimal (codes (show_ℕ m))
  unfolding show_ℕ
  decimal = show_rounds-IsDecimal (suc m) m (omega arith)

  digits-show_ℕ : digits 0 (codes (show_ℕ m)) ≡ some m
  unfolding show_ℕ digits
  digits-show_ℕ =
      ap (digits 0) (sym (append-nil (codes (show_ℕ m))))
      ∙ digits-show_rounds (suc m) m [] (omega arith)

  digits_of-show_ℕ : (cs : List ℕ) → codes (show_ℕ m) ≡ cs → IsDecimal cs → digits_of cs ≡ some m
  digits_of-show_ℕ [] e d = cc d.is
  digits_of-show_ℕ (c ∷ cs) e d = ap (digits 0) (sym e) ∙ digits-show_ℕ

  signed-show_ℕ :
      (cs : List ℕ) → codes (show_ℕ m) ≡ cs → IsDecimal cs → signed cs ≡ positive (some m)
  signed-show_ℕ [] e d = cc d.is
  signed-show_ℕ (c ∷ cs) e d =
      let same : c ≡ d.head = cc in
      let no_minus : nat_beq c 45 ≡ false = ground arith in
      let no_plus : nat_beq c 43 ≡ false = ground arith in
      rw (no_minus, no_plus) (ap positive (digits_of-show_ℕ (c ∷ cs) e d))

  number-pos : number (show_ℤ (pos m)) ≡ or_zero (positive (some m))
  unfolding number show_ℤ
  number-pos = ap or_zero (signed-show_ℕ (codes (show_ℕ m)) refl decimal)

number-negsuc : (n : ℕ) → number (show_ℤ (negsuc n)) ≡ or_zero (negative (some (suc n)))
unfolding number show_ℤ
number-negsuc n =
    ap (λ cs. or_zero (signed cs)) (codes-append "-" (show_ℕ (suc n)))
    ∙ ap (λ o. or_zero (negative o))
        (digits_of-show_ℕ (suc n) (codes (show_ℕ (suc n))) refl (decimal (suc n)))

-- The numbers of an i32.
abbrev pub IsI32 : ℤ → Type 0
IsI32 a = (pos_part a < 2 ^ 31) × (neg_part a ≤ 2 ^ 31)

-- A number that is written as an option's value, in decimal digits and with a sign if it is
-- negative, is read back if it is an i32, and is read as 0 if it is not.
pub number-show_ℤ :
    (a : ℤ) → (IsI32 a → number (show_ℤ a) ≡ a) × (¬ IsI32 a → number (show_ℤ a) ≡ pos 0)
number-show_ℤ (pos n) = (λ fits. number-pos n ∙ ground arith, λ over. number-pos n ∙ ground arith)
number-show_ℤ (negsuc n) =
    (λ fits. number-negsuc n ∙ ground arith, λ over. number-negsuc n ∙ ground arith)
