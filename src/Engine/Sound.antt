-- ===== src/Engine/Sound.antt =====
-- src/zkp_core_engine.rs: the algebra of two Schnorr equations with one R.
use zkp_verifier.Common.{◌≡◌, ok_inj, ◌≢◌, ap, ◌∙◌, sym}
use mathlib.Core.Option.{some-injective}
use zkp_verifier.Curve.{Curve, IsGroup}
use zkp_verifier.Proof.{Proof}
use zkp_verifier.Engine.{public_key}
use zkp_verifier.Engine.Verify.{Accepts}

module _ (C : Curve) (g : IsGroup C) where
  pub add-add-neg : (p q : C.Point) → C.add (C.add p q) (g.neg q) ≡ p
  add-add-neg p q = g.add_assoc p q (g.neg q) ∙ ap (C.add p) (g.add-neg q) ∙ g.add-identity p

  add_cancel_right : (p q r : C.Point) → C.add p r ≡ C.add q r → p ≡ q
  add_cancel_right p q r h = sym (add-add-neg p r) ∙ ap (λ x. C.add x (g.neg r)) h ∙ add-add-neg q r

  pub add_cancel_left : (p q r : C.Point) → C.add r p ≡ C.add r q → p ≡ q
  add_cancel_left p q r h = add_cancel_right p q r (g.add_comm p r ∙ h ∙ g.add_comm r q)

  -- p (a - b) = q  if  p a = q + p b
  pub mul-sub :
      (p q : C.Point) (a b : C.Scalar)
      → C.mul p a ≡ C.add q (C.mul p b)
      → C.mul p (g.scalar_sub a b) ≡ q
  mul-sub p q a b h =
      add_cancel_right _ q (C.mul p b)
        (sym (g.mul-add p (g.scalar_sub a b) b) ∙ ap (C.mul p) (g.sub-add a b) ∙ h)

  -- The secret that two responses to two challenges reveal.
  unfoldable pub extract : C.Scalar → C.Scalar → C.Scalar → C.Scalar → C.Scalar
  extract s t d e = C.scalar_mul (g.scalar_sub s t) (g.invert (g.scalar_sub d e))

  response_difference :
      (r pk : C.Point) (s t d e : C.Scalar)
      → C.mul C.generator s ≡ C.add r (C.mul pk d)
      → C.mul C.generator t ≡ C.add r (C.mul pk e)
      → C.mul C.generator (g.scalar_sub s t) ≡ C.mul pk (g.scalar_sub d e)
  response_difference r pk s t d e hs ht =
      let x = C.mul pk (g.scalar_sub d e) in
      let pk_d : C.mul pk d ≡ C.add x (C.mul pk e) =
        ap (C.mul pk) (sym (g.sub-add d e)) ∙ g.mul-add pk (g.scalar_sub d e) e in
      mul-sub C.generator x s t (
        hs
        ∙ ap (C.add r) pk_d
        ∙ sym (g.add_assoc r x (C.mul pk e))
        ∙ ap (λ y. C.add y (C.mul pk e)) (g.add_comm r x)
        ∙ g.add_assoc x r (C.mul pk e)
        ∙ ap (C.add x) (sym ht))

  extract_lem :
      (r pk : C.Point) (s t d e : C.Scalar)
      → d ≢ e
      → C.mul C.generator s ≡ C.add r (C.mul pk d)
      → C.mul C.generator t ≡ C.add r (C.mul pk e)
      → C.mul C.generator (extract s t d e) ≡ pk
  unfolding extract
  extract_lem r pk s t d e h hs ht =
      let i = g.invert (g.scalar_sub d e) in
      sym (g.mul-mul C.generator (g.scalar_sub s t) i)
      ∙ ap (λ x. C.mul x i) (response_difference r pk s t d e hs ht)
      ∙ g.mul-mul pk (g.scalar_sub d e) i
      ∙ ap (C.mul pk) (g.mul-invert (g.scalar_sub d e) (λ z. h (g.sub-zero d e z)))
      ∙ g.mul-one pk

  module _ (pk : C.Point) (f h : Proof) (same_r : f.r_point ≡ h.r_point) where
    pub same_point : (a : Accepts C g pk f) (b : Accepts C g pk h) → a.r ≡ b.r
    same_point a b =
        let same_encoding : a.encoded ≡ b.encoded =
          ok_inj (sym a.r_encoded ∙ ap C.encoded_from_bytes same_r ∙ b.r_encoded) in
        some-injective _ _ (sym a.r_read ∙ ap C.from_encoded_point same_encoding ∙ b.r_read)

    -- The difference of the responses divided by the difference of the challenges.
    pub public_key-extract :
        (a : Accepts C g pk f) (b : Accepts C g pk h)
        → a.e ≢ b.e
        → public_key C (extract a.s b.s a.e b.e) ≡ pk
    unfolding public_key
    public_key-extract a b differ =
        extract_lem a.r pk a.s b.s a.e b.e differ a.equation
          (b.equation ∙ ap (λ r. C.add r (C.mul pk b.e)) (sym (same_point a b)))
