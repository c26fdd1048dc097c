-- ===== src/Curve.antt =====
-- The crates `k256` and `sha2`, as src/zkp_core_engine.rs uses them: the operations, and apart from
-- them the documented behaviour that proofs about the program rest on.
use zkp_verifier.Common.{
  ◌≡◌, ◌≢◌, ◌↔◌, Bool, true, String, Option, none, some, [], ◌++◌, Outcome, ok, Bytes, length, All,
}
use zkp_verifier.Common.Word.{IsByte}

pub record Curve : Type 1 where
  pub Scalar : Type 0
  -- `ProjectivePoint`, and `EncodedPoint`, a point in SEC1 form that need not be on the curve.
  pub Point : Type 0
  pub EncodedPoint : Type 0
  pub Hasher : Type 0
  -- `ProjectivePoint::GENERATOR`, `point * scalar`, `point + point`, `point == point`.
  pub generator : Point
  pub mul : Point → Scalar → Point
  pub add : Point → Point → Point
  pub point_eq : Point → Point → Bool
  -- `scalar + scalar`, `scalar * scalar`.
  pub scalar_add : Scalar → Scalar → Scalar
  pub scalar_mul : Scalar → Scalar → Scalar
  -- `ProjectivePoint::to_bytes`, `EncodedPoint::from_bytes` with its error's text,
  -- `ProjectivePoint::from_encoded_point`.
  pub point_to_bytes : Point → Bytes
  pub encoded_from_bytes : Bytes → Outcome String EncodedPoint
  pub from_encoded_point : EncodedPoint → Option Point
  -- `Scalar::to_bytes`, `FieldBytes::from_slice` (`none` is its panic), `Scalar::from_repr`.
  pub scalar_to_bytes : Scalar → Bytes
  pub field_bytes : Bytes → Option Bytes
  pub from_repr : Bytes → Option Scalar
  -- `Sha256::new`, `update`, `finalize`.
  pub sha256 : Hasher
  pub update : Hasher → Bytes → Hasher
  pub finalize : Hasher → Bytes

-- The points are an abelian group on which the scalars, a field, act; the generator has prime
-- order, so that a scalar is known from its product with a point that is not the identity.
pub record IsGroup (C : Curve) : Type 0 where
  pub identity : C.Point
  pub neg : C.Point → C.Point
  pub zero : C.Scalar
  pub one : C.Scalar
  pub scalar_sub : C.Scalar → C.Scalar → C.Scalar
  pub invert : C.Scalar → C.Scalar
  pub add_comm : (p q : C.Point) → C.add p q ≡ C.add q p
  pub add_assoc : (p q r : C.Point) → C.add (C.add p q) r ≡ C.add p (C.add q r)
  pub add-identity : (p : C.Point) → C.add p identity ≡ p
  pub add-neg : (p : C.Point) → C.add p (neg p) ≡ identity
  pub point_eq_iff : (p q : C.Point) → (C.point_eq p q ≡ true) ↔ (p ≡ q)
  pub mul-add :
      (p : C.Point) (a b : C.Scalar) → C.mul p (C.scalar_add a b) ≡ C.add (C.mul p a) (C.mul p b)
  pub mul-mul : (p : C.Point) (a b : C.Scalar) → C.mul (C.mul p a) b ≡ C.mul p (C.scalar_mul a b)
  pub mul-one : (p : C.Point) → C.mul p one ≡ p
  pub scalar_mul_comm : (a b : C.Scalar) → C.scalar_mul a b ≡ C.scalar_mul b a
  pub sub-add : (a b : C.Scalar) → C.scalar_add (scalar_sub a b) b ≡ a
  pub sub-zero : (a b : C.Scalar) → scalar_sub a b ≡ zero → a ≡ b
  pub mul-invert : (a : C.Scalar) → a ≢ zero → C.scalar_mul a (invert a) ≡ one
  pub mul_inj : (p : C.Point) (a b : C.Scalar) → p ≢ identity → C.mul p a ≡ C.mul p b → a ≡ b
  pub generator-ne-identity : C.generator ≢ identity

-- Every point but the identity is read back from its 33 bytes, and a scalar from its 32 bytes;
-- `from_repr` accepts canonical bytes alone, and `from_slice` panics on any other length.
pub record IsEncoding (C : Curve) (g : IsGroup C) : Type 0 where
  pub encoded : C.Point → C.EncodedPoint
  pub encoded-to_bytes :
      (p : C.Point) → p ≢ g.identity → C.encoded_from_bytes (C.point_to_bytes p) ≡ ok (encoded p)
  pub from_encoded : (p : C.Point) → p ≢ g.identity → C.from_encoded_point (encoded p) ≡ some p
  pub length-point_to_bytes : (p : C.Point) → length (C.point_to_bytes p) ≡ 33
  pub point_to_bytes_inj : (p q : C.Point) → C.point_to_bytes p ≡ C.point_to_bytes q → p ≡ q
  pub length-scalar_to_bytes : (s : C.Scalar) → length (C.scalar_to_bytes s) ≡ 32
  pub from_repr-to_bytes : (s : C.Scalar) → C.from_repr (C.scalar_to_bytes s) ≡ some s
  pub from_repr_canonical :
      (b : Bytes) (s : C.Scalar) → C.from_repr b ≡ some s → C.scalar_to_bytes s ≡ b
  pub field_bytes_some : (b : Bytes) → length b ≡ 32 → C.field_bytes b ≡ some b
  pub scalar_to_bytes-IsByte : (s : C.Scalar) → All IsByte (C.scalar_to_bytes s)
  pub field_bytes_none : (b : Bytes) → length b ≢ 32 → C.field_bytes b ≡ none

-- A hasher digests the concatenation of what it has been fed, into 32 bytes.
pub record IsHash (C : Curve) : Type 0 where
  pub fed : C.Hasher → Bytes
  pub digest : Bytes → Bytes
  pub fed-sha256 : fed C.sha256 ≡ []
  pub fed-update : (h : C.Hasher) (b : Bytes) → fed (C.update h b) ≡ fed h ++ b
  pub finalize-digest : (h : C.Hasher) → C.finalize h ≡ digest (fed h)
  pub length-digest : (b : Bytes) → length (digest b) ≡ 32
