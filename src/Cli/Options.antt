-- ===== src/Cli/Options.antt =====
-- src/bin: what the options of the programs are read with: a dash in front, and `parse::<i32>()` with
-- zero for what it refuses.
use Prim.Native.Char.{code}
use zkp_verifier.Common.{
  ℕ, zero, suc, ◌+◌, ◌*◌, ◌-◌, ◌^◌, String, Bool, false, ◌&&◌, not, Option, none, some, List, [],
  ◌∷◌, ltb, leb, nat_beq, if◌then◌else◌,
}
use zkp_verifier.Common.Int.{ℤ, pos, negsuc}

-- The characters of a string.
abbrev pub codes : String → List ℕ
codes String.[] = []
codes (String.◌∷◌ c s) = code c ∷ codes s

abbrev begins_with : ℕ → List ℕ → Bool
begins_with c [] = false
begins_with c (d ∷ _) = nat_beq d c

-- `starts_with('-')`
unfoldable pub starts_with_dash : String → Bool
starts_with_dash s = begins_with 45 (codes s)

-- Decimal digits, behind the number that the digits before them stand for.
unfoldable pub digits : ℕ → List ℕ → Option ℕ
digits n [] = some n
digits n (c ∷ cs) =
    let rest = digits (10 * n + (c - 48)) cs in if not (ltb c 48) && ltb c 58 then rest else none

abbrev pub digits_of : List ℕ → Option ℕ
digits_of [] = none
digits_of (c ∷ cs) = digits 0 (c ∷ cs)

abbrev pub positive : Option ℕ → Option ℤ
positive none = none
positive (some n) = if ltb n (2 ^ 31) then some (pos n) else none

abbrev pub minus : ℕ → ℤ
minus zero = pos 0
minus (suc n) = negsuc n

abbrev pub negative : Option ℕ → Option ℤ
negative none = none
negative (some n) = if leb n (2 ^ 31) then some (minus n) else none

abbrev pub signed : List ℕ → Option ℤ
signed [] = none
signed (c ∷ cs) =
    if nat_beq c 45
    then negative (digits_of cs)
    else (if nat_beq c 43 then positive (digits_of cs) else positive (digits_of (c ∷ cs)))

abbrev pub or_zero : Option ℤ → ℤ
or_zero none = pos 0
or_zero (some n) = n

-- `parse::<i32>().unwrap_or(0)`
unfoldable pub number : String → ℤ
unfolding digits
number s = or_zero (signed (codes s))
