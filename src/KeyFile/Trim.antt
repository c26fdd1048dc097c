-- ===== src/KeyFile/Trim.antt =====
-- src/bin/user_client.rs: `str::trim`, which takes off Unicode white space, on a string's bytes.
use zkp_verifier.Common.{
  ℕ, ◌≡◌, refl, ap, ◌∙◌, ◌≤◌, ◌<◌, ◌⊎◌, ◌/◌, ◌%◌, Bool, false, ◌&&◌, ◌||◌, [], ◌∷◌, Bytes, leb,
  nat_beq, if◌then◌else◌, All, arith,
}
use mathlib.Core.List.{reverse, reverse_aux, reverse-reverse}
use zkp_verifier.Common.Word.{IsByte}
use zkp_verifier.KeyFile.{hex_digit, hex_string}

-- Characters of one byte, of two (U+0085, U+00A0) and of three (U+1680, U+2000 to U+200A, U+2028,
-- U+2029, U+202F, U+205F, U+3000).
abbrev pub white1 : ℕ → Bool
white1 a = (leb 9 a && leb a 13) || nat_beq a 32

abbrev pub white2 : ℕ → ℕ → Bool
white2 a b = nat_beq a 194 && (nat_beq b 133 || nat_beq b 160)

abbrev pub white3 : ℕ → ℕ → ℕ → Bool
white3 a b c =
    (nat_beq a 225 && nat_beq b 154 && nat_beq c 128)
    || (nat_beq a 226
        && nat_beq b 128
        && ((leb 128 c && leb c 138) || nat_beq c 168 || nat_beq c 169 || nat_beq c 175))
    || (nat_beq a 226 && nat_beq b 129 && nat_beq c 159)
    || (nat_beq a 227 && nat_beq b 128 && nat_beq c 128)

module _ (two : ℕ → ℕ → Bool) (three : ℕ → ℕ → ℕ → Bool) where
  -- `trim_start`, with these tests for characters of two and of three bytes.
  unfoldable pub trim_front : Bytes → Bytes
  trim_front [] = []
  trim_front (a ∷ []) = if white1 a then [] else a ∷ []
  trim_front (a ∷ b ∷ []) =
      let s1 = trim_front (b ∷ []) in if white1 a then s1 else (if two a b then [] else a ∷ b ∷ [])
  trim_front (a ∷ b ∷ c ∷ s) =
      let s1 = trim_front (b ∷ c ∷ s) in
      let s2 = trim_front (c ∷ s) in
      let s3 = trim_front s in
      if white1 a then s1 else (if two a b then s2 else (if three a b c then s3 else a ∷ b ∷ c ∷ s))

-- At the end, the characters' bytes come in the opposite order.
unfoldable pub trim : Bytes → Bytes
unfolding trim_front
trim s =
    reverse (
      trim_front (λ x y. white2 y x) (λ x y z. white3 z y x) (reverse (trim_front white2 white3 s)))

abbrev pub IsHexDigit : ℕ → Type 0
IsHexDigit a = ((48 ≤ a) × (a < 58)) ⊎ ((97 ≤ a) × (a < 103))

module _ (two : ℕ → ℕ → Bool) (three : ℕ → ℕ → ℕ → Bool)
    (no_two : (a b : ℕ) → IsHexDigit a → two a b ≡ false)
    (no_three : (a b c : ℕ) → IsHexDigit a → three a b c ≡ false) where
  white1-IsHexDigit : (a : ℕ) → IsHexDigit a → white1 a ≡ false
  white1-IsHexDigit a h = ground arith

  trim_front_lem : (s : Bytes) → All IsHexDigit s → trim_front two three s ≡ s
  unfolding trim_front
  trim_front_lem [] h = refl
  trim_front_lem (a ∷ []) h = rw (white1-IsHexDigit a h.0) refl
  trim_front_lem (a ∷ b ∷ []) h = rw (white1-IsHexDigit a h.0, no_two a b h.0) refl
  trim_front_lem (a ∷ b ∷ c ∷ s) h =
      rw (white1-IsHexDigit a h.0, no_two a b h.0, no_three a b c h.0) refl

All-reverse_aux : (P : ℕ → Type 0) (xs ys : Bytes) → All P xs → All P ys → All P (reverse_aux xs ys)
All-reverse_aux P [] ys h k = k
All-reverse_aux P (x ∷ xs) ys (hx, h) k = All-reverse_aux P xs (x ∷ ys) h (hx, k)

hex_digit-IsHexDigit : (d : ℕ) → d < 16 → IsHexDigit (hex_digit d)
hex_digit-IsHexDigit d h = ground arith

hex_string-IsHexDigit : (bytes : Bytes) → All IsByte bytes → All IsHexDigit (hex_string bytes)
unfolding hex_string
hex_string-IsHexDigit [] h = tt
hex_string-IsHexDigit (b ∷ bytes) (hb, h) = (
  hex_digit-IsHexDigit (b / 16) (omega arith),
  (hex_digit-IsHexDigit (b % 16) (omega arith), hex_string-IsHexDigit bytes h),
)

white2-IsHexDigit : (a b : ℕ) → IsHexDigit a → white2 a b ≡ false
white2-IsHexDigit a b h = ground arith

white2-IsHexDigit_last : (a b : ℕ) → IsHexDigit b → white2 a b ≡ false
white2-IsHexDigit_last a b h = ground arith

white3-IsHexDigit : (a b c : ℕ) → IsHexDigit a → white3 a b c ≡ false
white3-IsHexDigit a b c h = ground arith

white3-IsHexDigit_last : (a b c : ℕ) → IsHexDigit c → white3 a b c ≡ false
white3-IsHexDigit_last a b c h = ground arith

-- There is nothing to trim in the text of a key.
pub trim-hex_string :
    (bytes : Bytes) → All IsByte bytes → trim (hex_string bytes) ≡ hex_string bytes
unfolding trim
trim-hex_string bytes h =
    let s = hex_string bytes in
    let digits = hex_string-IsHexDigit bytes h in
    ap (λ t. reverse (trim_front (λ x y. white2 y x) (λ x y z. white3 z y x) (reverse t)))
      (trim_front_lem white2 white3 white2-IsHexDigit white3-IsHexDigit s digits)
    ∙ ap reverse (
        trim_front_lem (λ x y. white2 y x) (λ x y z. white3 z y x)
          (λ a b. white2-IsHexDigit_last b a) (λ a b c. white3-IsHexDigit_last c b a) (reverse s)
          (All-reverse_aux IsHexDigit s [] digits tt))
    ∙ reverse-reverse s
