-- ===== src/KeyFile/RoundTrip.antt =====
-- src/bin/user_client.rs: `hex_decode` on what `hex_string` writes, and on such a string with one character more.
use zkp_verifier.Common.{
  ℕ, ◌/◌, ◌%◌, ◌<◌, ◌≡◌, refl, false, some, [], ◌∷◌, ◌++◌, ok, panic, Bytes, All, arith,
}
use zkp_verifier.Common.Word.{IsByte}
use zkp_verifier.KeyFile.{hex_digit, hex_string, to_digit, from_str_radix, inside_char, hex_decode}

to_digit-hex_digit : (d : ℕ) → d < 16 → to_digit (hex_digit d) ≡ some d
to_digit-hex_digit d h = ground arith

from_str_radix-hex_digit :
    (b : ℕ) → IsByte b → from_str_radix (hex_digit (b / 16)) (hex_digit (b % 16)) ≡ ok b
from_str_radix-hex_digit b h =
    ground (arith, to_digit-hex_digit (b / 16), to_digit-hex_digit (b % 16))

inside_char-hex_string : (bytes : Bytes) → All IsByte bytes → inside_char (hex_string bytes) ≡ false
unfolding hex_string
inside_char-hex_string [] h = refl
inside_char-hex_string (b ∷ bytes) (hb, h) = ground arith

-- What `hex_string` writes of a list of bytes is read back by `hex_decode`.
pub hex_decode-hex_string :
    (bytes : Bytes) → All IsByte bytes → hex_decode (hex_string bytes) ≡ ok bytes
unfolding hex_decode hex_string
hex_decode-hex_string [] h = refl
hex_decode-hex_string (b ∷ bytes) (hb, h) =
    rw
      (inside_char-hex_string bytes h, from_str_radix-hex_digit b hb, hex_decode-hex_string bytes h)

inside_char-cut :
    (bytes : Bytes) (c : ℕ)
    → All IsByte bytes
    → c < 128
    → inside_char (hex_string bytes ++ (c ∷ [])) ≡ false
unfolding hex_string
inside_char-cut [] c h small = ground arith
inside_char-cut (b ∷ bytes) c (hb, h) small = ground arith

-- `hex_decode` panics on what `hex_string` writes of a list of bytes followed by one more ASCII
-- character.
pub hex_decode-cut :
    (bytes : Bytes) (c : ℕ)
    → All IsByte bytes
    → c < 128
    → hex_decode (hex_string bytes ++ (c ∷ [])) ≡ panic
unfolding hex_decode hex_string
hex_decode-cut [] c h small = refl
hex_decode-cut (b ∷ bytes) c (hb, h) small =
    rw (
      inside_char-cut bytes c h small,
      from_str_radix-hex_digit b hb,
      hex_decode-cut bytes c h small,
    )
