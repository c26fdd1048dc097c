-- ===== src/Engine/Verify.antt =====
-- src/zkp_core_engine.rs: what `verify` answers, on every branch.
use zkp_verifier.Common.{
  ◌≡◌, refl, ◌≢◌, ◌↔◌, true, Option, none, some, ok, panic, map_err, map_err-eq-ok, unwrap-eq-ok,
  ap, Bytes, unwrap, length, >>=-eq-ok,
}
use zkp_verifier.Curve.{Curve, IsGroup, IsEncoding}
use zkp_verifier.Proof.{serialization_error, Proof}
use zkp_verifier.Engine.{compute_challenge, check_equation, verify}

module _ (C : Curve) (g : IsGroup C) where
  -- R, s and the challenge that a proof stands for, under a public key, and the Schnorr equation
  -- between them: s G = R + e Y.
  pub record Accepts (pk : C.Point) (f : Proof) : Type 0 where
    pub encoded : C.EncodedPoint
    pub r : C.Point
    pub s : C.Scalar
    pub e : C.Scalar
    pub s_bytes : Bytes
    pub r_encoded : C.encoded_from_bytes f.r_point ≡ ok encoded
    pub r_read : C.from_encoded_point encoded ≡ some r
    pub s_field : C.field_bytes f.s_scalar ≡ some s_bytes
    pub s_read : C.from_repr s_bytes ≡ some s
    pub challenge : compute_challenge C r pk f.timestamp f.nonce ≡ ok e
    pub equation : C.mul C.generator s ≡ C.add r (C.mul pk e)

  verify_of_Accepts : (pk : C.Point) (f : Proof) → Accepts pk f → verify C pk f ≡ ok true
  unfolding verify
  verify_of_Accepts pk f a =
      rw (a.r_encoded, a.s_field, a.r_read, a.s_read, a.challenge)
        (ap ok ((g.point_eq_iff _ _).1 a.equation))

  -- What a `true` of `check_equation` says of what was read.
  record Equation (pk : C.Point) (f : Proof) (r : Option C.Point) (s : Option C.Scalar)
      : Type 0 where
    point : C.Point
    scalar : C.Scalar
    e : C.Scalar
    r_is : r ≡ some point
    s_is : s ≡ some scalar
    challenge : compute_challenge C point pk f.timestamp f.nonce ≡ ok e
    holds : C.mul C.generator scalar ≡ C.add point (C.mul pk e)

  Equation-of_check :
      (pk : C.Point) (f : Proof) (r : Option C.Point) (s : Option C.Scalar)
      → check_equation C pk f r s ≡ ok true
      → Equation pk f r s
  unfolding check_equation
  Equation-of_check pk f none s h = cc
  Equation-of_check pk f (some r) none h = cc
  Equation-of_check pk f (some r) (some s) h =
      let (e, read, same) = >>=-eq-ok (compute_challenge C r pk f.timestamp f.nonce) _ h in
      record {
        point = r;
        scalar = s;
        e = e;
        r_is = refl;
        s_is = refl;
        challenge = read;
        holds = (g.point_eq_iff _ _).0 (cc);
      }

  Accepts_of_verify : (pk : C.Point) (f : Proof) → verify C pk f ≡ ok true → Accepts pk f
  unfolding verify
  Accepts_of_verify pk f h =
      let (encoded, r_encoded, rest) =
        >>=-eq-ok
          (map_err (λ _. serialization_error "Invalid R point length/format")
            (C.encoded_from_bytes f.r_point))
          _ h in
      let (s_bytes, s_field, checked) = >>=-eq-ok (unwrap (C.field_bytes f.s_scalar)) _ rest in
      let q = Equation-of_check pk f (C.from_encoded_point encoded) (C.from_repr s_bytes) checked in
      record {
        encoded = encoded;
        r = q.point;
        s = q.scalar;
        e = q.e;
        s_bytes = s_bytes;
        r_encoded = map_err-eq-ok _ _ r_encoded;
        r_read = q.r_is;
        s_field = unwrap-eq-ok _ s_field;
        s_read = q.s_is;
        challenge = q.challenge;
        equation = q.holds;
      }

  -- `verify` answers `true` exactly if a point R, a scalar s and a challenge e are read from the
  -- proof and the public key such that s G = R + e Y.
  pub verify-true_iff : (pk : C.Point) (f : Proof) → (verify C pk f ≡ ok true) ↔ Accepts pk f
  verify-true_iff pk f = (Accepts_of_verify pk f, verify_of_Accepts pk f)

  -- If the bytes of R have the form of a point and the response is not 32 bytes long, `verify`
  -- panics.
  pub verify_panics :
      IsEncoding C g
      → (pk : C.Point) (f : Proof) {encoded : C.EncodedPoint}
      → C.encoded_from_bytes f.r_point ≡ ok encoded
      → length f.s_scalar ≢ 32
      → verify C pk f ≡ panic
  unfolding verify
  verify_panics enc pk f read odd = rw (read, enc.field_bytes_none f.s_scalar odd)
