-- ===== src/KeyFile.antt =====
-- src/bin/user_client.rs, and alike src/bin/kafka_prover.rs and src/bin/enroll_user.rs: the
-- hexadecimal text of a key file. A string is the list of its bytes in UTF-8.
pub mod RoundTrip
pub mod Trim
use zkp_verifier.Common.{
  ℕ, ◌+◌, ◌-◌, ◌*◌, ◌/◌, ◌%◌, String, Bool, true, false, ◌&&◌, not, Option, none, some, [], ◌∷◌,
  ◌++◌, Outcome, ok, err, panic, ◌>>=◌, ok_or, Bytes, ltb, nat_beq, if◌then◌else◌,
}

-- A digit of `{:x}`, below 16.
abbrev pub hex_digit : ℕ → ℕ
hex_digit d = if ltb d 10 then 48 + d else 87 + d

-- `{:02x}`, one byte after the other.
unfoldable pub hex_string : Bytes → Bytes
hex_string [] = []
hex_string (b ∷ bytes) = hex_digit (b / 16) ∷ hex_digit (b % 16) ∷ hex_string bytes

-- `char::to_digit(16)`.
abbrev pub to_digit : ℕ → Option ℕ
to_digit c =
    if not (ltb c 48) && ltb c 58
    then some (c - 48)
    else (if not (ltb c 97) && ltb c 103
        then some (c - 87)
        else (if not (ltb c 65) && ltb c 71 then some (c - 55) else none))

abbrev pub two_digits : Option ℕ → Option ℕ → Option ℕ
two_digits (some high) (some low) = some (16 * high + low)
two_digits (some high) none = none
two_digits none low = none

-- `u8::from_str_radix(…, 16)` of a string of two bytes, which takes a plus sign in front.
abbrev pub from_str_radix : ℕ → ℕ → Outcome String ℕ
from_str_radix a b =
    ok_or (if nat_beq a 43 then to_digit b else two_digits (to_digit a) (to_digit b))
      "invalid digit found in string"

-- Whether a string's rest starts inside a character, where a slice panics.
abbrev pub inside_char : Bytes → Bool
inside_char [] = false
inside_char (b ∷ _) = not (ltb b 128) && ltb b 192

unfoldable pub hex_decode : Bytes → Outcome String Bytes
hex_decode [] = ok []
hex_decode (a ∷ []) = panic
hex_decode (a ∷ b ∷ s) =
    let rest = hex_decode s in
    if inside_char s then panic else (do byte ← from_str_radix a b; bytes ← rest; ok (byte ∷ bytes))
