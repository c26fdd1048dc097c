-- ===== src/Engine/Generated.antt =====
-- src/zkp_core_engine.rs: the proofs that `verify` accepts against those that
-- `generate_proof_with_time` makes, and against a simulator that has no secret key.
use zkp_verifier.Common.{
  ◌≡◌, refl, ap, sym, ◌∙◌, ◌↔◌, true, some, ok, ok_inj, Bytes, length, >>=-eq-ok,
}
use zkp_verifier.Common.Int.{ℤ}
use zkp_verifier.Curve.{Curve, IsGroup, IsEncoding}
use zkp_verifier.Proof.{ZkpError, Proof}
use zkp_verifier.Engine.{public_key, compute_challenge, generate_proof_with_time, verify}
use zkp_verifier.Engine.Verify.{Accepts, verify-true_iff}
use zkp_verifier.Engine.Complete.{schnorr}
use zkp_verifier.Engine.Sound.{add-add-neg, mul-sub}
use zkp_verifier.Engine.Tamper.{s_scalar_canonical}

module _ (C : Curve) where
  -- Bytes in SEC1 form from which a point is read.
  pub record Encodes (bytes : Bytes) (p : C.Point) : Type 0 where
    pub encoded : C.EncodedPoint
    pub has_form : C.encoded_from_bytes bytes ≡ ok encoded
    pub on_curve : C.from_encoded_point encoded ≡ some p

  -- A proof with the response that a secret key and a nonce scalar give, and bytes of the point that
  -- belongs to the scalar.
  pub record Generated (sk : C.Scalar) (f : Proof) : Type 0 where
    pub k : C.Scalar
    pub made : Proof
    pub generated : generate_proof_with_time C sk (public_key C sk) f.timestamp f.nonce k ≡ ok made
    pub same_response : made.s_scalar ≡ f.s_scalar
    pub same_point : Encodes f.r_point (C.mul C.generator k)

  module _ (g : IsGroup C) where
    -- What a simulator with the public key computes for a challenge and a response of its choice.
    pub simulated_point : C.Point → C.Scalar → C.Scalar → C.Point
    simulated_point pk e s = C.add (C.mul C.generator s) (g.neg (C.mul pk e))

    pub record Simulated (pk : C.Point) (timestamp : ℤ) (nonce : Bytes) (f : Proof) : Type 0 where
      pub s : C.Scalar
      pub e : C.Scalar
      pub challenge : compute_challenge C (simulated_point pk e s) pk timestamp nonce ≡ ok e
      pub is : f ≡ record {
        r_point = C.point_to_bytes (simulated_point pk e s);
        s_scalar = C.scalar_to_bytes s;
        timestamp = timestamp;
        nonce = nonce;
      }

module _ (C : Curve) (g : IsGroup C) (sk : C.Scalar) where
  -- The nonce scalar that gives a response to a challenge.
  abbrev scalar_of : C.Scalar → C.Scalar → C.Scalar
  scalar_of s e = g.scalar_sub s (C.scalar_mul e sk)

  -- s G = R + e (sk G)  if  R = (s - e sk) G
  point_of_scalar :
      (s e : C.Scalar) (r : C.Point)
      → C.mul C.generator s ≡ C.add r (C.mul (C.mul C.generator sk) e)
      → C.mul C.generator (scalar_of s e) ≡ r
  point_of_scalar s e r h = mul-sub C g C.generator r s (C.scalar_mul e sk) (
      h
      ∙ ap (C.add r) (g.mul-mul C.generator sk e)
      ∙ ap (λ a. C.add r (C.mul C.generator a)) (g.scalar_mul_comm sk e))

  simulated_of_scalar :
      (k e : C.Scalar)
      → simulated_point C g (C.mul C.generator sk) e (C.scalar_add k (C.scalar_mul e sk))
        ≡ C.mul C.generator k
  unfolding simulated_point
  simulated_of_scalar k e =
      ap (λ p. C.add p (g.neg (C.mul (C.mul C.generator sk) e))) (schnorr C g k e sk)
      ∙ add-add-neg C g (C.mul C.generator k) (C.mul (C.mul C.generator sk) e)

  -- s G = (s G - x) + x
  add-neg-add : (p x : C.Point) → p ≡ C.add (C.add p (g.neg x)) x
  add-neg-add p x = sym (
      g.add_assoc p (g.neg x) x
      ∙ ap (C.add p) (g.add_comm (g.neg x) x ∙ g.add-neg x)
      ∙ g.add-identity p)

  -- The generation with the nonce scalar that belongs to a point, a response and its challenge.
  made_of_scalar :
      (s e : C.Scalar) (r : C.Point) (timestamp : ℤ) (nonce : Bytes)
      → C.mul C.generator s ≡ C.add r (C.mul (public_key C sk) e)
      → compute_challenge C r (public_key C sk) timestamp nonce ≡ ok e
      → generate_proof_with_time C sk (public_key C sk) timestamp nonce (scalar_of s e)
        ≡ ok (record {
          r_point = C.point_to_bytes r;
          s_scalar = C.scalar_to_bytes s;
          timestamp = timestamp;
          nonce = nonce;
        })
  unfolding generate_proof_with_time public_key
  made_of_scalar s e r timestamp nonce equation challenge =
      rw (point_of_scalar s e r equation, challenge, g.sub-add s (C.scalar_mul e sk)) refl

  -- The proofs that `generate_proof_with_time` makes for a secret key, a timestamp and a nonce,
  -- over all nonce scalars, are exactly those of a simulator that knows the public key alone: it
  -- takes any response s and challenge e, computes R as s G - e Y, and keeps the result if e is the
  -- challenge of R.
  pub generated-Simulated :
      (timestamp : ℤ) (nonce : Bytes) (f : Proof)
      → ((k : C.Scalar) × (generate_proof_with_time C sk (public_key C sk) timestamp nonce k
            ≡ ok f))
        ↔ Simulated C g (public_key C sk) timestamp nonce f
  unfolding generate_proof_with_time public_key
  generated-Simulated timestamp nonce f =
      let pk = C.mul C.generator sk in
      (
        λ (k, made).
            let r = C.mul C.generator k in
            let (e, challenge, same) =
              >>=-eq-ok (compute_challenge C r pk timestamp nonce) _ made in
            let s = C.scalar_add k (C.scalar_mul e sk) in
            record {
              s = s;
              e = e;
              challenge = rw (simulated_of_scalar k e) challenge;
              is = rw (simulated_of_scalar k e) (sym (ok_inj {E = ZkpError} same));
            },
        λ m.
            let r = simulated_point C g pk m.e m.s in
            let equation : C.mul C.generator m.s ≡ C.add r (C.mul pk m.e) =
              unfold simulated_point in add-neg-add (C.mul C.generator m.s) (C.mul pk m.e) in
            (
              scalar_of m.s m.e,
              made_of_scalar m.s m.e r timestamp nonce equation m.challenge ∙ ap ok (sym m.is),
            ),
      )

  module _ (enc : IsEncoding C g) where
    Generated-of_Accepts : (f : Proof) → Accepts C g (public_key C sk) f → Generated C sk f
    unfolding public_key
    Generated-of_Accepts f a = record {
      k = scalar_of a.s a.e;
      made = record f { r_point = C.point_to_bytes a.r; s_scalar = C.scalar_to_bytes a.s };
      generated = made_of_scalar a.s a.e a.r f.timestamp f.nonce a.equation a.challenge;
      same_response = s_scalar_canonical C g enc (public_key C sk) f a;
      same_point = record {
        encoded = a.encoded;
        has_form = a.r_encoded;
        on_curve = a.r_read ∙ ap some (sym (point_of_scalar a.s a.e a.r a.equation));
      };
    }

    Accepts-of_Generated : (f : Proof) → Generated C sk f → Accepts C g (public_key C sk) f
    unfolding generate_proof_with_time public_key
    Accepts-of_Generated f m =
        let r = C.mul C.generator m.k in
        let (e, challenge, same) =
          >>=-eq-ok (compute_challenge C r (C.mul C.generator sk) f.timestamp f.nonce) _
            m.generated in
        let s = C.scalar_add m.k (C.scalar_mul e sk) in
        let response : C.scalar_to_bytes s ≡ f.s_scalar =
          ap (λ (p : Proof). p.s_scalar) (ok_inj {E = ZkpError} same) ∙ m.same_response in
        record {
          encoded = m.same_point.encoded;
          r = r;
          s = s;
          e = e;
          s_bytes = f.s_scalar;
          r_encoded = m.same_point.has_form;
          r_read = m.same_point.on_curve;
          s_field =
              enc.field_bytes_some f.s_scalar
                (ap length (sym response) ∙ enc.length-scalar_to_bytes s);
          s_read = ap C.from_repr (sym response) ∙ enc.from_repr-to_bytes s;
          challenge = challenge;
          equation = schnorr C g m.k e sk;
        }

    -- Under the public key of a secret key, `verify` accepts a proof exactly if a nonce scalar
    -- exists with which `generate_proof_with_time`, for that secret key and the proof's timestamp
    -- and nonce, makes a proof with the same response, and the proof's bytes of R encode that
    -- scalar's product with the generator. The bytes need not be those that the generation writes.
    pub verify-Generated : (f : Proof) → (verify C (public_key C sk) f ≡ ok true) ↔ Generated C sk f
    verify-Generated f =
        let accepted = verify-true_iff C g (public_key C sk) f in
        (λ h. Generated-of_Accepts f (accepted.0 h), λ m. accepted.1 (Accepts-of_Generated f m))
