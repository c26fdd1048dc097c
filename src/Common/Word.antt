-- ===== src/Common/Word.antt =====
-- Big-endian bytes of the machine's words: `u32::to_be_bytes`, `u32::from_be_bytes` and
-- `i64::to_be_bytes`.
use zkp_verifier.Common.Int.{ℤ, pos, negsuc, IsI64}
use zkp_verifier.Common.Lists.{length, Bytes}
use Prim.Native.Nat.{ℕ, suc, ◌+◌, ◌-◌, ◌*◌, ◌/◌, ◌%◌, ◌^◌, ◌<◌}
use mathlib.Core.Path.{◌≡◌, refl}
use mathlib.Core.List.{[], ◌∷◌, ◌++◌}
use native.Mathlib.Omega.{arith}

abbrev pub IsByte : ℕ → Type 0
IsByte b = b < 256

-- A u32 is a number below 2 ^ 32.
unfoldable pub u32_to_be_bytes : ℕ → Bytes
u32_to_be_bytes n = (n / 2 ^ 24 % 256) ∷ (n / 2 ^ 16 % 256) ∷ (n / 2 ^ 8 % 256) ∷ (n % 256) ∷ []

-- The array has four bytes.
unfoldable pub u32_from_be_bytes : Bytes → ℕ
u32_from_be_bytes (a ∷ b ∷ c ∷ d ∷ []) = a * 2 ^ 24 + b * 2 ^ 16 + c * 2 ^ 8 + d
u32_from_be_bytes _ = 0

pub u32_from_be_bytes-to_be_bytes : (n : ℕ) → n < 2 ^ 32 → u32_from_be_bytes (u32_to_be_bytes n) ≡ n
unfolding u32_from_be_bytes u32_to_be_bytes
u32_from_be_bytes-to_be_bytes n h = omega arith

-- The two's complement of an i64, as a number below 2 ^ 64.
abbrev pub bits64 : ℤ → ℕ
bits64 (pos n) = n
bits64 (negsuc n) = 2 ^ 64 - suc n

abbrev pub u64_to_be_bytes : ℕ → Bytes
u64_to_be_bytes n = u32_to_be_bytes (n / 2 ^ 32) ++ u32_to_be_bytes (n % 2 ^ 32)

unfoldable pub i64_to_be_bytes : ℤ → Bytes
unfolding u32_to_be_bytes
i64_to_be_bytes a = u64_to_be_bytes (bits64 a)

pub length-i64_to_be_bytes : (a : ℤ) → length (i64_to_be_bytes a) ≡ 8
unfolding i64_to_be_bytes
length-i64_to_be_bytes a = refl

pub u32_to_be_bytes-inj :
    (m n : ℕ) → m < 2 ^ 32 → n < 2 ^ 32 → u32_to_be_bytes m ≡ u32_to_be_bytes n → m ≡ n
unfolding u32_to_be_bytes
u32_to_be_bytes-inj m n hm hn e = ground arith

pub i64_to_be_bytes-inj :
    (a b : ℤ) → IsI64 a → IsI64 b → i64_to_be_bytes a ≡ i64_to_be_bytes b → a ≡ b
unfolding i64_to_be_bytes
i64_to_be_bytes-inj (pos a) (pos b) ha hb e = ground arith
i64_to_be_bytes-inj (pos a) (negsuc b) ha hb e = ground arith
i64_to_be_bytes-inj (negsuc a) (pos b) ha hb e = ground arith
i64_to_be_bytes-inj (negsuc a) (negsuc b) ha hb e = ground arith
