-- ===== src/Engine/Binding.antt =====
-- src/zkp_core_engine.rs: what `compute_challenge` binds, through the bytes that it feeds to
-- SHA-256.
use zkp_verifier.Common.{
  ◌≡◌, ◌≢◌, ◌⊎◌, inl, inr, ap, ◌∙◌, sym, ◌++◌, ok, Bytes, append_inj, unwrap, >>=-eq-ok,
  unwrap-eq-ok, bytes_beq, bytes_beq_iff, Bool-cases,
}
use zkp_verifier.Common.Int.{ℤ, IsI64}
use zkp_verifier.Common.Word.{i64_to_be_bytes, i64_to_be_bytes-inj, length-i64_to_be_bytes}
use mathlib.Core.List.{append_assoc}
use mathlib.Core.Option.{some-injective}
use zkp_verifier.Curve.{Curve, IsGroup, IsEncoding, IsHash}
use zkp_verifier.Proof.{ZkpError, Proof}
use zkp_verifier.Engine.{compute_challenge}
use zkp_verifier.Engine.Verify.{Accepts}
use zkp_verifier.Engine.Sound.{add_cancel_left, same_point}
use zkp_verifier.Engine.Tamper.{field_bytes_inv}

module _ (C : Curve) where
  -- What is fed to the hash, in order.
  abbrev pub transcript : C.Point → C.Point → ℤ → Bytes → Bytes
  transcript r y timestamp nonce =
      C.point_to_bytes r ++ (C.point_to_bytes y ++ (i64_to_be_bytes timestamp ++ nonce))

  -- Two inputs of the hash with one digest.
  abbrev pub Collision : IsHash C → Bytes → Bytes → Type 0
  Collision h x y = (x ≢ y) × (h.digest x ≡ h.digest y)

module _ (C : Curve) (g : IsGroup C) (enc : IsEncoding C g) (h : IsHash C) where
  fed_transcript :
      (r y : C.Point) (ts : ℤ) (nonce : Bytes)
      → h.fed (
          C.update
            (C.update
              (C.update (C.update C.sha256 (C.point_to_bytes r)) (C.point_to_bytes y))
              (i64_to_be_bytes ts))
            nonce)
        ≡ transcript C r y ts nonce
  fed_transcript r y ts nonce = simp (h.fed-update, h.fed-sha256, append_assoc)

  digest_read :
      (r y : C.Point) (ts : ℤ) (nonce : Bytes) (e : C.Scalar)
      → compute_challenge C r y ts nonce ≡ ok e
      → C.scalar_to_bytes e ≡ h.digest (transcript C r y ts nonce)
  unfolding compute_challenge
  digest_read r y ts nonce e read =
      let hasher =
        C.update (C.update (C.update C.sha256 (C.point_to_bytes r)) (C.point_to_bytes y))
          (i64_to_be_bytes ts) in
      let hash_result = C.finalize (C.update hasher nonce) in
      let (s_bytes, field, repr) =
        >>=-eq-ok {E = ZkpError} (unwrap (C.field_bytes hash_result)) _ read in
      enc.from_repr_canonical s_bytes e (unwrap-eq-ok {E = ZkpError} _ repr)
      ∙ (field_bytes_inv C g enc hash_result s_bytes (unwrap-eq-ok {E = ZkpError} _ field)).0
      ∙ h.finalize-digest _
      ∙ ap h.digest (fed_transcript r y ts nonce)

  transcript_inj :
      (r y r' y' : C.Point) (ts ts' : ℤ) (nonce nonce' : Bytes)
      → IsI64 ts
      → IsI64 ts'
      → transcript C r y ts nonce ≡ transcript C r' y' ts' nonce'
      → (r ≡ r') × (y ≡ y') × (ts ≡ ts') × (nonce ≡ nonce')
  transcript_inj r y r' y' ts ts' nonce nonce' ht ht' e =
      let (e_r, rest) =
        append_inj (C.point_to_bytes r) _ (C.point_to_bytes r') _
          (enc.length-point_to_bytes r ∙ sym (enc.length-point_to_bytes r')) e in
      let (e_y, rest') =
        append_inj (C.point_to_bytes y) _ (C.point_to_bytes y') _
          (enc.length-point_to_bytes y ∙ sym (enc.length-point_to_bytes y')) rest in
      let (e_ts, e_nonce) =
        append_inj (i64_to_be_bytes ts) _ (i64_to_be_bytes ts') _
          (length-i64_to_be_bytes ts ∙ sym (length-i64_to_be_bytes ts')) rest' in
      (
        enc.point_to_bytes_inj r r' e_r,
        enc.point_to_bytes_inj y y' e_y,
        i64_to_be_bytes-inj ts ts' ht ht' e_ts,
        e_nonce,
      )

  -- If `compute_challenge` gives one challenge for two inputs with i64 timestamps, then R, the
  -- public key, the timestamp and the nonce are the same in both, or the bytes hashed for the two
  -- are a collision of the hash.
  pub compute_challenge_binds :
      (r y r' y' : C.Point) (ts ts' : ℤ) (nonce nonce' : Bytes) (e : C.Scalar)
      → IsI64 ts
      → IsI64 ts'
      → compute_challenge C r y ts nonce ≡ ok e
      → compute_challenge C r' y' ts' nonce' ≡ ok e
      → ((r ≡ r') × (y ≡ y') × (ts ≡ ts') × (nonce ≡ nonce'))
        ⊎ Collision C h (transcript C r y ts nonce) (transcript C r' y' ts' nonce')
  compute_challenge_binds r y r' y' ts ts' nonce nonce' e ht ht' read read' =
      let fed = transcript C r y ts nonce in
      let fed' = transcript C r' y' ts' nonce' in
      elim (Bool-cases (bytes_beq fed fed')) [
        | inl same ↦
            inl (
              transcript_inj r y r' y' ts ts' nonce nonce' ht ht' ((bytes_beq_iff fed fed').0 same))
        | inr differ ↦ inr (
          λ same. cc (differ, (bytes_beq_iff fed fed').1 same),
          sym (digest_read r y ts nonce e read) ∙ digest_read r' y' ts' nonce' e read',
        )
      ]

  module _ (pk : C.Point) (f f' : Proof) where
    -- Two accepted proofs with one R and one response have one challenge.
    same_challenge :
        pk ≢ g.identity
        → f.r_point ≡ f'.r_point
        → f.s_scalar ≡ f'.s_scalar
        → (a : Accepts C g pk f) (b : Accepts C g pk f') → a.e ≡ b.e
    same_challenge key same_r same_s a b =
        let point : a.r ≡ b.r = same_point C g pk f f' same_r a b in
        let s_bytes : a.s_bytes ≡ b.s_bytes =
          some-injective _ _ (sym a.s_field ∙ ap C.field_bytes same_s ∙ b.s_field) in
        let scalar : a.s ≡ b.s =
          some-injective _ _ (sym a.s_read ∙ ap C.from_repr s_bytes ∙ b.s_read) in
        g.mul_inj pk a.e b.e key (
          add_cancel_left C g _ _ a.r (
            sym a.equation
            ∙ ap (C.mul C.generator) scalar
            ∙ b.equation
            ∙ ap (λ r. C.add r (C.mul pk b.e)) (sym point)))

    -- If two accepted proofs under one public key, which is not the identity, have the same bytes
    -- of R and of the response, then they have the same timestamp and nonce, or the bytes hashed
    -- for the two are a collision of the hash. The timestamps are i64s.
    pub replaced_timestamp_or_nonce :
        pk ≢ g.identity
        → f.r_point ≡ f'.r_point
        → f.s_scalar ≡ f'.s_scalar
        → IsI64 f.timestamp
        → IsI64 f'.timestamp
        → (a : Accepts C g pk f) (b : Accepts C g pk f')
        → ((f.timestamp ≡ f'.timestamp) × (f.nonce ≡ f'.nonce))
          ⊎ Collision C h
              (transcript C a.r pk f.timestamp f.nonce)
              (transcript C b.r pk f'.timestamp f'.nonce)
    replaced_timestamp_or_nonce key same_r same_s ht ht' a b =
        let same = same_challenge key same_r same_s a b in
        elim (compute_challenge_binds a.r pk b.r pk f.timestamp f'.timestamp f.nonce f'.nonce b.e ht
          ht' (a.challenge ∙ ap ok same) b.challenge) [
            | inl parts ↦ inl (parts.2, parts.3)
            | inr collision ↦ inr collision
          ]
