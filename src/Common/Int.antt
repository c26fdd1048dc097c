-- ===== src/Common/Int.antt =====
-- Signed integers over the native numbers, under the library's names, and the machine's i64.
use zkp_verifier.Common.Bools.{ltb, leb, if◌then◌else◌}
use Prim.Native.Nat.{ℕ, suc, ◌+◌, ◌-◌, ◌%◌, ◌^◌, ◌≤◌, ◌<◌}
use mathlib.Core.Path.{◌≡◌}
use mathlib.Core.Bool.{Bool}
use mathlib.Core.Logic.{◌⊎◌}
use native.Mathlib.Omega.{arith}

-- `negsuc n` is -(n + 1).
pub data ℤ : Type 0 where
  pos : ℕ → ℤ
  negsuc : ℕ → ℤ

abbrev pub pos_part : ℤ → ℕ
pos_part (pos n) = n
pos_part (negsuc n) = 0

abbrev pub neg_part : ℤ → ℕ
neg_part (pos n) = 0
neg_part (negsuc n) = suc n

-- a - b, as an integer.
abbrev pub sub_ℕ : ℕ → ℕ → ℤ
sub_ℕ a b = if leb b a then pos (a - b) else negsuc (b - a - 1)

infixl 65 ◌+ℤ◌ ◌-ℤ◌
infix 50 ◌≤ℤ◌ ◌<ℤ◌
unfoldable pub ◌+ℤ◌ : ℤ → ℤ → ℤ
a +ℤ b = sub_ℕ (pos_part a + pos_part b) (neg_part a + neg_part b)

unfoldable pub ◌-ℤ◌ : ℤ → ℤ → ℤ
a -ℤ b = sub_ℕ (pos_part a + neg_part b) (neg_part a + pos_part b)

abbrev pub ◌≤ℤ◌ : ℤ → ℤ → Type 0
a ≤ℤ b = pos_part a + neg_part b ≤ pos_part b + neg_part a

abbrev pub ◌<ℤ◌ : ℤ → ℤ → Type 0
a <ℤ b = pos_part a + neg_part b < pos_part b + neg_part a

abbrev pub ltb_ℤ : ℤ → ℤ → Bool
ltb_ℤ a b = ltb (pos_part a + neg_part b) (pos_part b + neg_part a)

abbrev pub leb_ℤ : ℤ → ℤ → Bool
leb_ℤ a b = leb (pos_part a + neg_part b) (pos_part b + neg_part a)

-- One lemma for each operation lets `omega` work with the operations shut, at any depth.
pub +ℤ_parts :
    (a b : ℤ)
    → pos_part (a +ℤ b) + neg_part a + neg_part b ≡ neg_part (a +ℤ b) + pos_part a + pos_part b
unfolding ◌+ℤ◌
+ℤ_parts a b = ground arith

pub -ℤ_parts :
    (a b : ℤ)
    → pos_part (a -ℤ b) + neg_part a + pos_part b ≡ neg_part (a -ℤ b) + pos_part a + neg_part b
unfolding ◌-ℤ◌
-ℤ_parts a b = ground arith

-- One of the two parts is zero.
pub parts_reduced : (a : ℤ) → (pos_part a ≡ 0) ⊎ (neg_part a ≡ 0)
parts_reduced (pos n) = ground arith
parts_reduced (negsuc n) = ground arith

pub eq_of_parts : (a b : ℤ) → pos_part a + neg_part b ≡ pos_part b + neg_part a → a ≡ b
eq_of_parts a b h = ground arith

pub ruleset int_laws = (arith, +ℤ_parts, -ℤ_parts, eq_of_parts)

-- An i64 is an integer in this range.
abbrev pub IsI64 : ℤ → Type 0
IsI64 a = (pos_part a < 2 ^ 63) × (neg_part a ≤ 2 ^ 63)

-- The i64 with the same residue modulo 2 ^ 64.
unfoldable pub wrap_i64 : ℤ → ℤ
wrap_i64 (pos n) = let m = n % 2 ^ 64 in if ltb m (2 ^ 63) then pos m else negsuc (2 ^ 64 - m - 1)
wrap_i64 (negsuc n) =
    let m = n % 2 ^ 64 in if ltb m (2 ^ 63) then negsuc m else pos (2 ^ 64 - m - 1)

-- i64 subtraction and negation, which wrap around in a release build.
unfoldable pub sub_i64 : ℤ → ℤ → ℤ
unfolding wrap_i64 ◌-ℤ◌
sub_i64 a b = wrap_i64 (a -ℤ b)

unfoldable pub neg_i64 : ℤ → ℤ
unfolding wrap_i64 ◌-ℤ◌
neg_i64 a = wrap_i64 (pos 0 -ℤ a)

pub wrap_i64-IsI64 : (a : ℤ) → IsI64 (wrap_i64 a)
unfolding wrap_i64
wrap_i64-IsI64 (pos n) = ground arith
wrap_i64-IsI64 (negsuc n) = ground arith

pub wrap_i64_lem : (a : ℤ) → IsI64 a → wrap_i64 a ≡ a
unfolding wrap_i64
wrap_i64_lem (pos n) h = ground arith
wrap_i64_lem (negsuc n) h = ground arith

-- The difference of two i64s wraps at most once.
pub sub_i64_parts :
    (a b : ℤ)
    → IsI64 a
    → IsI64 b
    → ((pos_part (sub_i64 a b) + neg_part a + pos_part b
          ≡ neg_part (sub_i64 a b) + pos_part a + neg_part b)
        × (pos_part a + neg_part b < neg_part a + pos_part b + 2 ^ 63)
        × (neg_part a + pos_part b ≤ pos_part a + neg_part b + 2 ^ 63))
      ⊎ ((pos_part (sub_i64 a b) + neg_part a + pos_part b + 2 ^ 64
            ≡ neg_part (sub_i64 a b) + pos_part a + neg_part b)
          × (neg_part a + pos_part b + 2 ^ 63 ≤ pos_part a + neg_part b))
      ⊎ ((pos_part (sub_i64 a b) + neg_part a + pos_part b
            ≡ neg_part (sub_i64 a b) + pos_part a + neg_part b + 2 ^ 64)
          × (pos_part a + neg_part b + 2 ^ 63 < neg_part a + pos_part b))
unfolding sub_i64
sub_i64_parts (pos a) (pos b) ha hb = ground arith
sub_i64_parts (pos a) (negsuc b) ha hb = ground arith
sub_i64_parts (negsuc a) (pos b) ha hb = ground arith
sub_i64_parts (negsuc a) (negsuc b) ha hb = ground arith

pub neg_i64_parts :
    (a : ℤ)
    → IsI64 a
    → neg_part a < 2 ^ 63
    → pos_part (neg_i64 a) + pos_part a ≡ neg_part (neg_i64 a) + neg_part a
unfolding neg_i64
neg_i64_parts (pos a) h k = ground arith
neg_i64_parts (negsuc a) h k = ground arith

pub sub_i64-IsI64 : (a b : ℤ) → IsI64 (sub_i64 a b)
unfolding sub_i64
sub_i64-IsI64 a b = wrap_i64-IsI64 (a -ℤ b)
