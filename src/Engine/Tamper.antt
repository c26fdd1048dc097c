-- ===== src/Engine/Tamper.antt =====
-- src/zkp_core_engine.rs: accepted proofs whose response is altered. The corruption of the last byte
-- of the response is that of src/tcp/client.rs, src/kafka/prover.rs and src/bin/user_client.rs.
use zkp_verifier.Common.{
  ◌≡◌, refl, ap₂, ◌≢◌, ap, ◌∙◌, sym, some, true, [], ◌∷◌, ok, ok_inj, arith, Bytes, length, All,
}
use zkp_verifier.Common.Word.{IsByte}
use native.Mathlib.Decide.{ℕ_discrete}
use mathlib.Core.Option.{some-injective}
use zkp_verifier.Curve.{Curve, IsGroup, IsEncoding}
use zkp_verifier.Proof.{ZkpError, Proof}
use zkp_verifier.Engine.{verify, last_wrapping_add_1, corrupt}
use zkp_verifier.Engine.Verify.{Accepts, verify-true_iff}
use zkp_verifier.Engine.Sound.{same_point}

last_wrapping_add_1-ne : (bs : Bytes) → All IsByte bs → bs ≢ [] → last_wrapping_add_1 bs ≢ bs
unfolding last_wrapping_add_1
last_wrapping_add_1-ne [] h ne = λ e. ne refl
last_wrapping_add_1-ne (b ∷ []) h ne = λ e. ground arith
last_wrapping_add_1-ne (b ∷ c ∷ bs) (hb, h) ne =
    λ e. last_wrapping_add_1-ne (c ∷ bs) h (λ p. cc) (cc)

module _ (C : Curve) (g : IsGroup C) (enc : IsEncoding C g) where
  pub field_bytes_inv : (b c : Bytes) → C.field_bytes b ≡ some c → (c ≡ b) × (length b ≡ 32)
  field_bytes_inv b c h = elim (ℕ_discrete (length b) 32) [
    | yes n ↦ (some-injective _ _ (sym h ∙ enc.field_bytes_some b n), n)
    | no n ↦ cc (h, enc.field_bytes_none b n)
  ]

  -- The response bytes of an accepted proof are the canonical bytes of the scalar.
  pub s_scalar_canonical :
      (pk : C.Point) (f : Proof) (a : Accepts C g pk f) → C.scalar_to_bytes a.s ≡ f.s_scalar
  s_scalar_canonical pk f a =
      enc.from_repr_canonical a.s_bytes a.s a.s_read
      ∙ (field_bytes_inv f.s_scalar a.s_bytes a.s_field).0

  module _ (pk : C.Point) (f h : Proof) where
    same_response :
        (a : Accepts C g pk f) (b : Accepts C g pk h)
        → a.r ≡ b.r
        → a.e ≡ b.e
        → f.s_scalar ≡ h.s_scalar
    same_response a b same_r same_e =
        let same_s : a.s ≡ b.s =
          g.mul_inj C.generator a.s b.s g.generator-ne-identity
            (a.equation ∙ ap₂ (λ r e. C.add r (C.mul pk e)) same_r same_e ∙ sym b.equation) in
        sym (s_scalar_canonical pk f a) ∙ ap C.scalar_to_bytes same_s ∙ s_scalar_canonical pk h b

    same_challenge :
        (a : Accepts C g pk f) (b : Accepts C g pk h)
        → a.r ≡ b.r
        → f.timestamp ≡ h.timestamp
        → f.nonce ≡ h.nonce
        → a.e ≡ b.e
    same_challenge a b same_r same_time same_nonce =
        ok_inj {E = ZkpError} (sym a.challenge ∙ rw (same_r, same_time, same_nonce) b.challenge)

    -- Two proofs that `verify` accepts under one public key, and that agree on the bytes of R, the
    -- timestamp and the nonce, have the same response bytes.
    pub response_unique :
        f.r_point ≡ h.r_point
        → f.timestamp ≡ h.timestamp
        → f.nonce ≡ h.nonce
        → verify C pk f ≡ ok true
        → verify C pk h ≡ ok true
        → f.s_scalar ≡ h.s_scalar
    response_unique same_r same_time same_nonce hf hh =
        let a = (verify-true_iff C g pk f).0 hf in
        let b = (verify-true_iff C g pk h).0 hh in
        let same = same_point C g pk f h same_r a b in
        same_response a b same (same_challenge a b same same_time same_nonce)

  -- A proof that `verify` accepts, and whose response consists of bytes, is not accepted any more
  -- after the last byte of its response has been corrupted.
  pub verify-corrupt :
      (pk : C.Point) (f : Proof)
      → All IsByte f.s_scalar
      → verify C pk f ≡ ok true
      → verify C pk (corrupt f) ≢ ok true
  unfolding corrupt
  verify-corrupt pk f bytes hf = λ hh.
      let a = (verify-true_iff C g pk f).0 hf in
      let long = (field_bytes_inv f.s_scalar a.s_bytes a.s_field).1 in
      last_wrapping_add_1-ne f.s_scalar bytes (λ e. absurd (omega (arith, long, ap length e)))
        (sym (response_unique pk f (corrupt f) refl refl refl hf hh))
