-- ===== src/Client/Login.antt =====
-- src/tcp/client.rs against src/tcp/server.rs: a client that talks to the server.
use zkp_verifier.Common.{
  ◌≡◌, refl, ◌≢◌, ap, ◌∙◌, sym, subst, String, Bool, true, false, Option, none, some, Outcome, ok,
  All, >>=-eq-ok, ok_inj,
}
use zkp_verifier.Common.Int.{ℤ, IsI64}
use zkp_verifier.Common.Word.{IsByte}
use mathlib.Core.Option.{some-injective}
use zkp_verifier.Curve.{Curve, IsGroup, IsEncoding}
use zkp_verifier.Database.{Rusqlite}
use zkp_verifier.Proof.{ZkpError, Proof}
use zkp_verifier.Protocol.{AuthRequest, AuthResponse}
use zkp_verifier.Engine.{
  public_key, public_to_bytes, generate_proof, generate_proof_with_time, verify, corrupt,
  compute_challenge,
}
use zkp_verifier.Engine.Complete.{verify-generate_proof}
use zkp_verifier.Engine.Tamper.{verify-corrupt}
use zkp_verifier.Replay.{ReplayProtector, check_and_record}
use zkp_verifier.Replay.Window.{IsSeconds, InWindow}
use zkp_verifier.Replay.Trace.{IsValid}
use zkp_verifier.Replay.Table.{live, check_and_record-ok_iff}
use zkp_verifier.Storage.{get_public_key}
use zkp_verifier.Server.{verdict, handle_request}
use zkp_verifier.Server.Handle.{
  Admits, Authentic, welcome, handle_request-verdict, handle_request-Admits_iff,
}
use zkp_verifier.Client.{Connection, Draw, authenticate}

module _ (C : Curve) where
  -- The proof carries the clock reading and the nonce that were drawn.
  pub generate_proof-draws :
      (sk : C.Scalar) (ts : ℤ) (nonce : zkp_verifier.Common.Bytes) (k : C.Scalar) (f : Proof)
      → generate_proof C sk (public_key C sk) ts nonce k ≡ ok f
      → (f.timestamp ≡ ts) × (f.nonce ≡ nonce)
  unfolding generate_proof generate_proof_with_time
  generate_proof-draws sk ts nonce k f made =
      let (e, _, same) =
        >>=-eq-ok (compute_challenge C (C.mul C.generator k) (public_key C sk) ts nonce) _ made in
      (
        ap (λ (p : Proof). p.timestamp) (sym (ok_inj same)),
        ap (λ (p : Proof). p.nonce) (sym (ok_inj same)),
      )

module _ (S : Rusqlite) (C : Curve) (conn : S.Connection) (p : ReplayProtector) (now : ℤ) where
  -- The connection to a server that meets this registry, protector and clock.
  abbrev pub to_server : Connection
  to_server = record {
    send = λ request. ok tt;
    next = λ request. some (handle_request C S conn p now request).0;
  }

  module _ (g : IsGroup C) (enc : IsEncoding C g) (sk : C.Scalar) (u : String) (d : Draw C)
      (f : Proof) (made : generate_proof C sk (public_key C sk) d.now d.nonce d.k ≡ ok f)
      (nonzero : C.mul C.generator d.k ≢ g.identity)
      (registered : get_public_key S C conn u ≡ ok (some (public_key C sk))) where
    verifies : verify C (public_key C sk) f ≡ ok true
    unfolding generate_proof
    verifies = verify-generate_proof C g enc sk d.k d.now d.nonce f nonzero made

    abbrev pub request_with : Proof → AuthRequest
    request_with proof = record {
      user_id = u;
      public_key = public_to_bytes C (public_key C sk);
      proof = proof;
    }

    takes :
        IsValid p
        → IsSeconds now
        → IsI64 d.now
        → InWindow p.max_drift_secs now d.now
        → live p now (u, d.nonce) ≡ none
        → (check_and_record p now u f).0 ≡ ok tt
    takes v hn ht window fresh =
        let (same_time, same_nonce) = generate_proof-draws C sk d.now d.nonce d.k f made in
        (check_and_record-ok_iff p v now hn u f (rw same_time ht)).1
          (rw same_time window, rw same_nonce fresh)

    pub honest-Authentic :
        IsValid p
        → IsSeconds now
        → IsI64 d.now
        → InWindow p.max_drift_secs now d.now
        → live p now (u, d.nonce) ≡ none
        → Authentic S C conn p now (request_with f)
    honest-Authentic v hn ht window fresh = record {
      pk = public_key C sk;
      registered = registered;
      key_matches = refl;
      taken = takes v hn ht window fresh;
      proven = verifies;
    }

    -- A client with the secret key of a registered user, whose proof was made with a nonce scalar
    -- that does not give the identity, is answered with success by the server. The protector is
    -- valid, the server's clock is from 0 to below 2 ^ 62, the client's clock is an i64 within the
    -- drift of the server's, and the drawn nonce does not stand in the table with a timestamp that
    -- is not below the cutoff.
    pub authenticate-welcome :
        IsValid p
        → IsSeconds now
        → IsI64 d.now
        → InWindow p.max_drift_secs now d.now
        → live p now (u, d.nonce) ≡ none
        → authenticate C to_server d u sk false ≡ ok (welcome u)
    unfolding authenticate verdict
    authenticate-welcome v hn ht window fresh = rw made (
        ap (λ (r : Outcome ZkpError AuthResponse × ReplayProtector). r.0)
          (handle_request-verdict S C conn p now (request_with f) (public_key C sk) registered refl
            (takes v hn ht window fresh))
        ∙ ap (verdict u) verifies)

    tampered-refused : All IsByte f.s_scalar → ¬ Authentic S C conn p now (request_with (corrupt f))
    tampered-refused bytes a =
        let same_key : a.pk ≡ public_key C sk =
          some-injective _ _ (ok_inj (sym a.registered ∙ registered)) in
        verify-corrupt C g enc (public_key C sk) f bytes verifies
          (subst (λ pk. verify C pk (corrupt f) ≡ ok true) same_key a.proven)

    -- A client with the secret key of a registered user, whose proof was made with a nonce scalar
    -- that does not give the identity and has a response of bytes, is not answered with success by
    -- the server if it corrupts the proof.
    pub authenticate-tampered :
        All IsByte f.s_scalar
        → (response : AuthResponse) → authenticate C to_server d u sk true ≡ ok response
        → response.success ≢ true
    unfolding authenticate
    authenticate-tampered bytes response answered = λ success. tampered-refused bytes (
        (handle_request-Admits_iff S C conn p now (request_with (corrupt f))).0
          (subst Admits (sym (rw made at answered)) success))
