-- ===== src/Engine/Extract.antt =====
-- src/zkp_core_engine.rs: special soundness of `verify`, with an extractor that reads two proofs.
use zkp_verifier.Common.{
  ◌≡◌, refl, ◌⊎◌, inl, inr, ap, sym, ◌∙◌, true, Outcome, ok, ◌>>=◌, map_err, unwrap, bytes_beq,
  bytes_beq_iff, Bool-cases,
}
use mathlib.Core.Option.{some-injective}
use zkp_verifier.Common.Int.{IsI64}
use zkp_verifier.Curve.{Curve, IsGroup, IsEncoding, IsHash}
use zkp_verifier.Proof.{ZkpError, serialization_error, Proof}
use zkp_verifier.Engine.{public_key, compute_challenge, verify}
use zkp_verifier.Engine.Verify.{Accepts, verify-true_iff}
use zkp_verifier.Engine.Sound.{extract, same_point, public_key-extract}
use zkp_verifier.Engine.Binding.{transcript, Collision, compute_challenge_binds}
use zkp_verifier.Engine.Generated.{Encodes}

module _ (C : Curve) (g : IsGroup C) where
  -- What anyone computes from two proofs with one R and the public key.
  unfoldable pub extract_key : C.Point → Proof → Proof → Outcome ZkpError C.Scalar
  extract_key pk f f' = do
    encoded ← map_err serialization_error (C.encoded_from_bytes f.r_point)
    r ← unwrap (C.from_encoded_point encoded)
    d ← compute_challenge C r pk f.timestamp f.nonce
    e ← compute_challenge C r pk f'.timestamp f'.nonce
    s_bytes ← unwrap (C.field_bytes f.s_scalar)
    s ← unwrap (C.from_repr s_bytes)
    t_bytes ← unwrap (C.field_bytes f'.s_scalar)
    t ← unwrap (C.from_repr t_bytes)
    ok (extract C g s t d e)

  -- Two proofs that give away a secret key of the public key.
  abbrev pub Reveal : C.Point → Proof → Proof → Type 0
  Reveal pk f f' = (sk : C.Scalar) × (extract_key pk f f' ≡ ok sk) × (public_key C sk ≡ pk)

  module _ (enc : IsEncoding C g) (h : IsHash C) (pk : C.Point) (f f' : Proof)
      (same_r : f.r_point ≡ f'.r_point) where
    challenge_of_same :
        (a : Accepts C g pk f) (b : Accepts C g pk f')
        → compute_challenge C a.r pk f'.timestamp f'.nonce ≡ ok b.e
    challenge_of_same a b =
        ap (λ r. compute_challenge C r pk f'.timestamp f'.nonce) (same_point C g pk f f' same_r a b)
        ∙ b.challenge

    extract_key_lem :
        (a : Accepts C g pk f) (b : Accepts C g pk f')
        → extract_key pk f f' ≡ ok (extract C g a.s b.s a.e b.e)
    unfolding extract_key
    extract_key_lem a b =
        rw
          (
            a.r_encoded,
            a.r_read,
            a.challenge,
            challenge_of_same a b,
            a.s_field,
            a.s_read,
            b.s_field,
            b.s_read,
          )
          refl

    -- Two inputs of the hash with one digest, which the proofs give with the point of their R.
    abbrev pub Collide : Type 0
    Collide =
        (r : C.Point) × Encodes C f.r_point r
        × Collision C h (transcript C r pk f.timestamp f.nonce)
            (transcript C r pk f'.timestamp f'.nonce)

    -- If `verify` accepts two proofs under one public key, which have the same bytes of R and
    -- differ in the timestamp or in the nonce, then the extractor computes from them a secret key
    -- of that public key, or the bytes hashed for the two are a collision of the hash. The
    -- timestamps are i64s.
    pub special_soundness :
        verify C pk f ≡ ok true
        → verify C pk f' ≡ ok true
        → IsI64 f.timestamp
        → IsI64 f'.timestamp
        → ¬ ((f.timestamp ≡ f'.timestamp) × (f.nonce ≡ f'.nonce))
        → Reveal pk f f' ⊎ Collide
    special_soundness accepted accepted' ht ht' differ =
        let a = (verify-true_iff C g pk f).0 accepted in
        let b = (verify-true_iff C g pk f').0 accepted' in
        let bytes_d = C.scalar_to_bytes a.e in
        let bytes_e = C.scalar_to_bytes b.e in
        elim (Bool-cases (bytes_beq bytes_d bytes_e)) [
          | inl same ↦
              let same_e : a.e ≡ b.e = some-injective _ _ (
                sym (enc.from_repr-to_bytes a.e)
                ∙ ap C.from_repr ((bytes_beq_iff bytes_d bytes_e).0 same)
                ∙ enc.from_repr-to_bytes b.e) in
              elim (compute_challenge_binds C g enc h a.r pk a.r pk f.timestamp f'.timestamp f.nonce
                f'.nonce b.e ht ht' (a.challenge ∙ ap ok same_e) (challenge_of_same a b)) [
                  | inl parts ↦ absurd (differ (parts.2, parts.3))
                  | inr collision ↦ inr (
                    a.r,
                    record { encoded = a.encoded; has_form = a.r_encoded; on_curve = a.r_read },
                    collision,
                  )
                ]
          | inr other ↦ inl (
            extract C g a.s b.s a.e b.e,
            extract_key_lem a b,
            public_key-extract C g pk f f' same_r a b
                (λ same. cc (other, (bytes_beq_iff bytes_d bytes_e).1 (ap C.scalar_to_bytes same))),
          )
        ]
