-- ===== src/Client/Request.antt =====
-- src/tcp/client.rs: what the request of `authenticate` carries.
use zkp_verifier.Common.{
  ◌≡◌, refl, ap, sym, ◌∙◌, String, Bool, true, false, ok, >>=-eq-ok, ok_inj, if◌then◌else◌,
}
use zkp_verifier.Curve.{Curve}
use zkp_verifier.Proof.{Proof}
use zkp_verifier.Protocol.{AuthRequest}
use zkp_verifier.Engine.{public_key, public_to_bytes, generate_proof, corrupt}
use zkp_verifier.Client.{Draw, auth_request}
use zkp_verifier.Client.Login.{generate_proof-draws}

corrupt-timestamp :
    (tamper : Bool) (f : Proof) → (if tamper then corrupt f else f).timestamp ≡ f.timestamp
unfolding corrupt
corrupt-timestamp true f = refl
corrupt-timestamp false f = refl

module _ (C : Curve) (d : Draw C) (u : String) (sk : C.Scalar) (tamper : Bool)
    (request : AuthRequest) (made : auth_request C d u sk tamper ≡ ok request) where
  pub auth_request_fields :
      (request.user_id ≡ u)
      × (request.public_key ≡ public_to_bytes C (public_key C sk))
      × (request.proof.timestamp ≡ d.now)
  unfolding auth_request
  auth_request_fields =
      let (f, proved, same) =
        >>=-eq-ok (generate_proof C sk (public_key C sk) d.now d.nonce d.k) _ made in
      let e = ok_inj same in
      (
        ap (λ (r : AuthRequest). r.user_id) (sym e),
        ap (λ (r : AuthRequest). r.public_key) (sym e),
        ap (λ (r : AuthRequest). r.proof.timestamp) (sym e)
            ∙ corrupt-timestamp tamper f
            ∙ (generate_proof-draws C sk d.now d.nonce d.k f proved).0,
      )
