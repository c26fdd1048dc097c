-- ===== src/Engine.antt =====
-- src/zkp_core_engine.rs: keys, proofs and their verification, over the crates' operations. The
-- random nonce and scalar, and the clock, are arguments; `UserSecretKey` and `UserPublicKey` are
-- the scalar and the point that they wrap.
pub mod Verify
pub mod Complete
pub mod Sound
pub mod Tamper
pub mod Fresh
pub mod Binding
pub mod Generated
pub mod Extract
use zkp_verifier.Common.{
  [], ◌∷◌, ◌+◌, ◌%◌, Bool, ◌<>◌, Option, none, some, Outcome, ok, err, ◌>>=◌, map_err, unwrap,
  ok_or, Bytes, length, nat_beq, not, if◌then◌else◌,
}
use zkp_verifier.Common.Int.{ℤ, pos, ltb_ℤ, leb_ℤ, sub_i64, neg_i64}
use zkp_verifier.Common.Word.{i64_to_be_bytes}
use zkp_verifier.Curve.{Curve}
use zkp_verifier.Proof.{ZkpError, serialization_error, Proof}

-- `i64::abs`, which wraps around at the least i64.
unfoldable pub abs_i64 : ℤ → ℤ
abs_i64 a = if ltb_ℤ a (pos 0) then neg_i64 a else a

unfoldable pub is_fresh : ℤ → Proof → ℤ → Bool
unfolding abs_i64
is_fresh now proof max_drift_secs = leb_ℤ (abs_i64 (sub_i64 now proof.timestamp)) max_drift_secs

-- `if let Some(b) = bytes.last_mut() { *b = b.wrapping_add(1) }`
unfoldable pub last_wrapping_add_1 : Bytes → Bytes
last_wrapping_add_1 [] = []
last_wrapping_add_1 (b ∷ []) = ((b + 1) % 256) ∷ []
last_wrapping_add_1 (b ∷ c ∷ bs) = b ∷ last_wrapping_add_1 (c ∷ bs)

-- The corruption that a prover simulates on request.
unfoldable pub corrupt : Proof → Proof
unfolding last_wrapping_add_1
corrupt proof = record proof { s_scalar = last_wrapping_add_1 proof.s_scalar }

module _ (C : Curve) where
  open C use {
    Scalar, Point, generator, mul, add, point_eq, scalar_add, scalar_mul, point_to_bytes,
    encoded_from_bytes, from_encoded_point, scalar_to_bytes, field_bytes, from_repr, sha256, update,
    finalize,
  }

  abbrev pub UserSecretKey : Type 0
  UserSecretKey = Scalar

  abbrev pub UserPublicKey : Type 0
  UserPublicKey = Point

  unfoldable pub public_key : UserSecretKey → UserPublicKey
  public_key sk = mul generator sk

  unfoldable pub secret_to_bytes : UserSecretKey → Bytes
  secret_to_bytes sk = scalar_to_bytes sk

  unfoldable pub secret_from_bytes : Bytes → Outcome ZkpError UserSecretKey
  secret_from_bytes bytes =
      if not (nat_beq (length bytes) 32)
      then err (serialization_error "Secret key must be exactly 32 bytes")
      else (do
        s_bytes ← unwrap (field_bytes bytes)
        ok_or (from_repr s_bytes) (serialization_error "Invalid scalar bytes for Secp256k1"))

  unfoldable pub public_to_bytes : UserPublicKey → Bytes
  public_to_bytes pk = point_to_bytes pk

  unfoldable pub public_from_bytes : Bytes → Outcome ZkpError UserPublicKey
  public_from_bytes bytes = do
    encoded ←
        map_err (λ e. serialization_error ("Invalid public key bytes: " <> e))
          (encoded_from_bytes bytes)
    ok_or (from_encoded_point encoded) (serialization_error "Point not on Secp256k1 curve")

  unfoldable pub compute_challenge : Point → Point → ℤ → Bytes → Outcome ZkpError Scalar
  compute_challenge r y timestamp nonce =
      let hasher = update sha256 (point_to_bytes r) in
      let hasher' = update hasher (point_to_bytes y) in
      let hasher'' = update hasher' (i64_to_be_bytes timestamp) in
      let hash_result = finalize (update hasher'' nonce) in
      do bytes ← unwrap (field_bytes hash_result); unwrap (from_repr bytes)

  -- `nonce` and `k` are what the random generator gives.
  unfoldable pub generate_proof_with_time :
      UserSecretKey → UserPublicKey → ℤ → Bytes → Scalar → Outcome ZkpError Proof
  generate_proof_with_time secret pk timestamp nonce k = do
    let r_point = mul generator k
    e ← compute_challenge r_point pk timestamp nonce
    ok (record {
      r_point = point_to_bytes r_point;
      s_scalar = scalar_to_bytes (scalar_add k (scalar_mul e secret));
      timestamp = timestamp;
      nonce = nonce;
    })

  unfoldable pub generate_proof :
      UserSecretKey → UserPublicKey → ℤ → Bytes → Scalar → Outcome ZkpError Proof
  unfolding generate_proof_with_time
  generate_proof secret pk now nonce k = generate_proof_with_time secret pk now nonce k

  -- The rest of `verify`, once R and s are read.
  unfoldable pub check_equation :
      Point → Proof → Option Point → Option Scalar → Outcome ZkpError Bool
  check_equation pk proof none s_scalar = err (serialization_error "Invalid point encoding")
  check_equation pk proof (some r_point) none = err (serialization_error "Invalid point encoding")
  check_equation pk proof (some r_point) (some s_scalar) = do
    e ← compute_challenge r_point pk proof.timestamp proof.nonce
    ok (point_eq (mul generator s_scalar) (add r_point (mul pk e)))

  unfoldable pub verify : Point → Proof → Outcome ZkpError Bool
  unfolding check_equation
  verify pk proof = do
    r_encoded ←
        map_err (λ _. serialization_error "Invalid R point length/format")
          (encoded_from_bytes proof.r_point)
    s_bytes ← unwrap (field_bytes proof.s_scalar)
    check_equation pk proof (from_encoded_point r_encoded) (from_repr s_bytes)
