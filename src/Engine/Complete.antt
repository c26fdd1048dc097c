-- ===== src/Engine/Complete.antt =====
-- src/zkp_core_engine.rs: keys and their bytes, and genuine proofs under `verify`.
use zkp_verifier.Common.{◌≡◌, subst, ok_inj, ◌≢◌, true, ok, Bytes, >>=-eq-ok}
use zkp_verifier.Common.Int.{ℤ}
use zkp_verifier.Curve.{Curve, IsGroup, IsEncoding}
use zkp_verifier.Proof.{ZkpError, Proof}
use zkp_verifier.Engine.{
  public_key, secret_to_bytes, secret_from_bytes, public_to_bytes, public_from_bytes,
  compute_challenge, generate_proof_with_time, verify,
}
use zkp_verifier.Engine.Verify.{Accepts, verify-true_iff}

module _ (C : Curve) (g : IsGroup C) where
  -- (k + e sk) G = k G + e (sk G)
  pub schnorr :
      (k e sk : C.Scalar)
      → C.mul C.generator (C.scalar_add k (C.scalar_mul e sk))
        ≡ C.add (C.mul C.generator k) (C.mul (C.mul C.generator sk) e)
  schnorr k e sk = rw (g.mul-add, g.mul-mul, g.scalar_mul_comm e sk)

module _ (C : Curve) (g : IsGroup C) (enc : IsEncoding C g) where
  -- A secret key is read back from its bytes.
  pub secret_from_bytes-to_bytes :
      (sk : C.Scalar) → secret_from_bytes C (secret_to_bytes C sk) ≡ ok sk
  unfolding secret_from_bytes secret_to_bytes
  secret_from_bytes-to_bytes sk = rw (
    enc.length-scalar_to_bytes sk,
    enc.field_bytes_some (C.scalar_to_bytes sk) (enc.length-scalar_to_bytes sk),
    enc.from_repr-to_bytes sk,
  )

  -- A public key that is not the identity is read back from its bytes.
  pub public_from_bytes-to_bytes :
      (pk : C.Point) → pk ≢ g.identity → public_from_bytes C (public_to_bytes C pk) ≡ ok pk
  unfolding public_from_bytes public_to_bytes
  public_from_bytes-to_bytes pk h = rw (enc.encoded-to_bytes pk h, enc.from_encoded pk h)

  -- A proof that `generate_proof_with_time` makes for a secret key is accepted by `verify` under
  -- its public key, if the random scalar's product with the generator is not the identity.
  pub verify-generate_proof :
      (sk k : C.Scalar) (timestamp : ℤ) (nonce : Bytes) (f : Proof)
      → C.mul C.generator k ≢ g.identity
      → generate_proof_with_time C sk (public_key C sk) timestamp nonce k ≡ ok f
      → verify C (public_key C sk) f ≡ ok true
  unfolding generate_proof_with_time public_key
  verify-generate_proof sk k timestamp nonce f nonzero made =
      let pk = C.mul C.generator sk in
      let r = C.mul C.generator k in
      let (e, challenge, same) = >>=-eq-ok (compute_challenge C r pk timestamp nonce) _ made in
      let s = C.scalar_add k (C.scalar_mul e sk) in
      let genuine : Proof = record {
        r_point = C.point_to_bytes r;
        s_scalar = C.scalar_to_bytes s;
        timestamp = timestamp;
        nonce = nonce;
      } in
      let a : Accepts C g pk genuine = record {
        encoded = enc.encoded r;
        r = r;
        s = s;
        e = e;
        s_bytes = C.scalar_to_bytes s;
        r_encoded = enc.encoded-to_bytes r nonzero;
        r_read = enc.from_encoded r nonzero;
        s_field = enc.field_bytes_some (C.scalar_to_bytes s) (enc.length-scalar_to_bytes s);
        s_read = enc.from_repr-to_bytes s;
        challenge = challenge;
        equation = schnorr C g k e sk;
      } in
      subst (λ p. verify C pk p ≡ ok true) (ok_inj {E = ZkpError} same)
        ((verify-true_iff C g pk genuine).1 a)
