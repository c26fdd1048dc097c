-- ===== src/Examples/Group.antt =====
-- The crates' interface at the group of two elements: what the laws of the curve, of its encodings
-- and of the hash ask for can hold. The digest is the parity of the bytes.
use zkp_verifier.Common.{
  ℕ, ◌≡◌, refl, ◌≢◌, Bool, true, false, ◌&&◌, not, String, Option, none, some, [], ◌∷◌, ◌++◌, ◌+◌,
  ◌%◌, Outcome, ok, err, Bytes, length, replicate, arith, nat_beq, bytes_beq, bytes_beq_iff,
  Bool-cases, inl, inr, if◌then◌else◌, sym, ap, ◌∙◌, All,
}
use mathlib.Core.Option.{some-injective}
use zkp_verifier.Common.Word.{IsByte}
use zkp_verifier.Curve.{Curve, IsGroup, IsEncoding, IsHash}

abbrev pub plus : Bool → Bool → Bool
plus true b = not b
plus false b = b

abbrev pub same : Bool → Bool → Bool
same true b = b
same false b = not b

abbrev pub scalar_bytes : Bool → Bytes
scalar_bytes true = replicate 31 0 ++ (1 ∷ [])
scalar_bytes false = replicate 32 0

abbrev pub point_bytes : Bool → Bytes
point_bytes true = 2 ∷ replicate 32 0
point_bytes false = replicate 33 0

abbrev pub read_scalar : Bytes → Option Bool
read_scalar b =
    if bytes_beq b (scalar_bytes true)
    then some true
    else (if bytes_beq b (scalar_bytes false) then some false else none)

abbrev pub read_encoded : Bytes → Outcome String Bytes
read_encoded b = if nat_beq (length b) 33 then ok b else err "crypto error"

abbrev pub read_point : Bytes → Option Bool
read_point b = if bytes_beq b (point_bytes true) then some true else none

abbrev pub sum : Bytes → ℕ
sum [] = 0
sum (b ∷ bs) = b + sum bs

abbrev pub parity : Bytes → Bytes
parity b = scalar_bytes (nat_beq (sum b % 2) 1)

abbrev pub two : Curve
two = record {
  Scalar = Bool;
  Point = Bool;
  EncodedPoint = Bytes;
  Hasher = Bytes;
  generator = true;
  mul = ◌&&◌;
  add = plus;
  point_eq = same;
  scalar_add = plus;
  scalar_mul = ◌&&◌;
  point_to_bytes = point_bytes;
  encoded_from_bytes = read_encoded;
  from_encoded_point = read_point;
  scalar_to_bytes = scalar_bytes;
  field_bytes = λ b. if nat_beq (length b) 32 then some b else none;
  from_repr = read_scalar;
  sha256 = [];
  update = λ h b. h ++ b;
  finalize = parity;
}

abbrev pub two-IsGroup : IsGroup two
two-IsGroup = record {
  identity = false;
  neg = λ p. p;
  zero = false;
  one = true;
  scalar_sub = plus;
  invert = λ a. a;
  add_comm = λ p q. ground arith;
  add_assoc = λ p q r. ground arith;
  add-identity = λ p. ground arith;
  add-neg = λ p. ground arith;
  point_eq_iff = λ p q. ground arith;
  mul-add = λ p a b. ground arith;
  mul-mul = λ p a b. ground arith;
  mul-one = λ p. ground arith;
  scalar_mul_comm = λ a b. ground arith;
  sub-add = λ a b. ground arith;
  sub-zero = λ a b h. ground arith;
  mul-invert = λ a h. ground arith;
  mul_inj = λ p a b h e. ground arith;
  generator-ne-identity = λ e. cc;
}

encoded-to_bytes : (p : Bool) → p ≢ false → read_encoded (point_bytes p) ≡ ok (point_bytes p)
encoded-to_bytes true h = refl
encoded-to_bytes false h = absurd (h refl)

from_encoded : (p : Bool) → p ≢ false → read_point (point_bytes p) ≡ some p
from_encoded true h = refl
from_encoded false h = absurd (h refl)

length-point_bytes : (p : Bool) → length (point_bytes p) ≡ 33
length-point_bytes true = refl
length-point_bytes false = refl

point_bytes_inj : (p q : Bool) → point_bytes p ≡ point_bytes q → p ≡ q
point_bytes_inj true true e = refl
point_bytes_inj true false e = cc
point_bytes_inj false true e = cc
point_bytes_inj false false e = refl

length-scalar_bytes : (s : Bool) → length (scalar_bytes s) ≡ 32
length-scalar_bytes true = refl
length-scalar_bytes false = refl

read_scalar-bytes : (s : Bool) → read_scalar (scalar_bytes s) ≡ some s
read_scalar-bytes true = refl
read_scalar-bytes false = refl

written_back :
    (b : Bytes) (s t : Bool)
    → bytes_beq b (scalar_bytes t) ≡ true
    → ◌≡◌ {A = Option Bool} (some t) (some s)
    → scalar_bytes s ≡ b
written_back b s t h e =
    ap scalar_bytes (sym (some-injective _ _ e)) ∙ sym ((bytes_beq_iff b (scalar_bytes t)).0 h)

read_scalar_canonical : (b : Bytes) (s : Bool) → read_scalar b ≡ some s → scalar_bytes s ≡ b
read_scalar_canonical b s h = elim (Bool-cases (bytes_beq b (scalar_bytes true))) [
  | inl one ↦ written_back b s true one (rw one at h)
  | inr other ↦ elim (Bool-cases (bytes_beq b (scalar_bytes false))) [
    | inl nil ↦ written_back b s false nil (rw (other, nil) at h)
    | inr neither ↦ cc (rw (other, neither) at h)
  ]
]

scalar_bytes-IsByte : (s : Bool) → All IsByte (scalar_bytes s)
scalar_bytes-IsByte true = omega arith
scalar_bytes-IsByte false = omega arith

pub two-IsEncoding : IsEncoding two two-IsGroup
two-IsEncoding = record {
  encoded = point_bytes;
  encoded-to_bytes = encoded-to_bytes;
  from_encoded = from_encoded;
  length-point_to_bytes = length-point_bytes;
  point_to_bytes_inj = point_bytes_inj;
  length-scalar_to_bytes = length-scalar_bytes;
  from_repr-to_bytes = read_scalar-bytes;
  from_repr_canonical = read_scalar_canonical;
  scalar_to_bytes-IsByte = scalar_bytes-IsByte;
  field_bytes_some = λ b h. ground arith;
  field_bytes_none = λ b h. ground arith;
}

pub two-IsHash : IsHash two
two-IsHash = record {
  fed = λ h. h;
  digest = parity;
  fed-sha256 = refl;
  fed-update = λ h b. refl;
  finalize-digest = λ h. refl;
  length-digest = λ b. length-scalar_bytes (nat_beq (sum b % 2) 1);
}
