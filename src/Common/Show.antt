-- ===== src/Common/Show.antt =====
-- `Display` of Rust's integers: decimal digits, with a sign in front of a negative one.
use zkp_verifier.Common.Bools.{ltb, if◌then◌else◌}
use zkp_verifier.Common.Int.{ℤ, pos, negsuc}
use Prim.Native.Nat.{ℕ, zero, suc, ◌/◌, ◌%◌}
use Prim.Native.String.{String, ◌++◌ as ◌<>◌}

abbrev pub show_digit : ℕ → String
show_digit zero = "0"
show_digit (suc zero) = "1"
show_digit (suc (suc zero)) = "2"
show_digit (suc (suc (suc zero))) = "3"
show_digit (suc (suc (suc (suc zero)))) = "4"
show_digit (suc (suc (suc (suc (suc zero))))) = "5"
show_digit (suc (suc (suc (suc (suc (suc zero)))))) = "6"
show_digit (suc (suc (suc (suc (suc (suc (suc zero))))))) = "7"
show_digit (suc (suc (suc (suc (suc (suc (suc (suc zero)))))))) = "8"
show_digit _ = "9"

-- Each round takes one digit off, so `suc n` rounds are enough for n.
unfoldable pub show_rounds : ℕ → ℕ → String
show_rounds zero n = ""
show_rounds (suc fuel) n =
    let front = show_rounds fuel (n / 10) in
    if ltb n 10 then show_digit n else front <> show_digit (n % 10)

unfoldable pub show_ℕ : ℕ → String
unfolding show_rounds
show_ℕ n = show_rounds (suc n) n

unfoldable pub show_ℤ : ℤ → String
unfolding show_ℕ
show_ℤ (pos n) = show_ℕ n
show_ℤ (negsuc n) = "-" <> show_ℕ (suc n)
