-- ===== src/Examples/KeyFile.antt =====
-- The text of a key file of two bytes.
use zkp_verifier.Common.{◌≡◌, refl, [], ◌∷◌, ok, Bytes}
use zkp_verifier.KeyFile.{hex_string, hex_decode}

abbrev key : Bytes
key = 10 ∷ 255 ∷ []

-- "0aff"
written : hex_string key ≡ 48 ∷ 97 ∷ 102 ∷ 102 ∷ []
unfolding hex_string
written = refl

-- A plus sign stands for a zero.
signed_zero : hex_decode (43 ∷ 97 ∷ []) ≡ ok (10 ∷ [])
unfolding hex_decode
signed_zero = refl
