-- ===== src/Programs/Responses.antt =====
-- src/bin/user_client.rs: which responses the program shows, from the requests that it sends.
use zkp_verifier.Common.{
  ◌≡◌, refl, ap, ◌∙◌, String, Bool, true, false, [], ◌∷◌, Outcome, ok, err, panic, All, >>=-eq-ok,
}
use zkp_verifier.Curve.{Curve}
use zkp_verifier.Proof.{ZkpError}
use zkp_verifier.Protocol.{AuthRequest, AuthResponse}
use zkp_verifier.Client.{Draw, auth_request, send_raw_request, authenticate}
use zkp_verifier.Cli.Clients.{UserClientOptions}
use zkp_verifier.Programs.UserClient.{
  shown, Link, after_replay, after_first, after_request, after_connect,
}

module _ (link : Link) (request : AuthRequest) where
  -- Two responses come from the one request, sent twice.
  abbrev pub SentTwice : AuthResponse → AuthResponse → Type 0
  SentTwice r t =
      (send_raw_request link.first request ≡ ok r) × (send_raw_request link.again request ≡ ok t)

  after_replay-two :
      (r a b : AuthResponse) (w : Outcome ZkpError AuthResponse)
      → (after_replay r w).responses ≡ a ∷ b ∷ []
      → (r ≡ a) × (w ≡ ok b)
  after_replay-two r a b (ok t) h = ((cc), (cc))
  after_replay-two r a b (err e) h = cc
  after_replay-two r a b panic h = cc

  after_first-two :
      (replay : Bool) (a b : AuthResponse) (w : Outcome ZkpError AuthResponse)
      → (after_first link replay request w).responses ≡ a ∷ b ∷ []
      → (w ≡ ok a) × (send_raw_request link.again request ≡ ok b)
  after_first-two true a b (ok r) h =
      let (same, again) = after_replay-two r a b (send_raw_request link.again request) h in
      (ap ok same, again)
  after_first-two false a b (ok r) h = cc
  after_first-two replay a b (err e) h = cc
  after_first-two replay a b panic h = cc

  module _ (P : AuthResponse → Type 0)
      (first : (r : AuthResponse) → send_raw_request link.first request ≡ ok r → P r)
      (again : (r : AuthResponse) → send_raw_request link.again request ≡ ok r → P r) where
    after_replay-All :
        (r : AuthResponse) (w : Outcome ZkpError AuthResponse)
        → P r
        → send_raw_request link.again request ≡ w
        → All P (after_replay r w).responses
    after_replay-All r (ok t) h e = (h, (again t e, tt))
    after_replay-All r (err x) h e = (h, tt)
    after_replay-All r panic h e = (h, tt)

    after_first-All :
        (replay : Bool) (w : Outcome ZkpError AuthResponse)
        → send_raw_request link.first request ≡ w
        → All P (after_first link replay request w).responses
    after_first-All true (ok r) e =
        after_replay-All r (send_raw_request link.again request) (first r e) refl
    after_first-All false (ok r) e = (first r e, tt)
    after_first-All replay (err x) e = tt
    after_first-All replay panic e = tt

after_request-two :
    (link : Link) (replay : Bool) (m : Outcome ZkpError AuthRequest) (a b : AuthResponse)
    → (after_request link replay m).responses ≡ a ∷ b ∷ []
    → (request : AuthRequest) × (m ≡ ok request) × SentTwice link request a b
after_request-two link replay (ok request) a b h =
    (request, refl, after_first-two link request replay a b _ h)
after_request-two link replay (err e) a b h = cc
after_request-two link replay panic a b h = cc

after_request-All :
    (link : Link) (replay : Bool) (P : AuthResponse → Type 0) (m : Outcome ZkpError AuthRequest)
    → ((request : AuthRequest) (r : AuthResponse)
        → m ≡ ok request
        → send_raw_request link.first request ≡ ok r
        → P r)
    → ((request : AuthRequest) (r : AuthResponse)
        → m ≡ ok request
        → send_raw_request link.again request ≡ ok r
        → P r)
    → All P (after_request link replay m).responses
after_request-All link replay P (ok request) first again =
    after_first-All link request P (λ r. first request r refl) (λ r. again request r refl) replay _
      refl
after_request-All link replay P (err e) first again = tt
after_request-All link replay P panic first again = tt

module _ (C : Curve) (o : UserClientOptions) (link : Link) (d : Draw C) (u : String)
    (sk : C.Scalar) where
  -- Without a replay the program shows the response to its one request.
  pub one_request :
      (response : AuthResponse)
      → o.replay ≡ false
      → authenticate C link.first d u sk o.tamper ≡ ok response
      → after_connect C o d u sk (ok link) ≡ shown (response ∷ []) (ok tt)
  unfolding authenticate
  one_request response once answered =
      let (request, made, sent) = >>=-eq-ok (auth_request C d u sk o.tamper) _ answered in
      ap (after_request link o.replay) made ∙ simp once (rw sent refl)

  pub two_responses :
      (a b : AuthResponse)
      → (after_connect C o d u sk (ok link)).responses ≡ a ∷ b ∷ []
      → (request : AuthRequest) × (auth_request C d u sk o.tamper ≡ ok request)
        × SentTwice link request a b
  two_responses a b h = after_request-two link o.replay _ a b h

  pub responses-All :
      (P : AuthResponse → Type 0)
      → ((request : AuthRequest) (r : AuthResponse)
          → auth_request C d u sk o.tamper ≡ ok request
          → send_raw_request link.first request ≡ ok r
          → P r)
      → ((request : AuthRequest) (r : AuthResponse)
          → auth_request C d u sk o.tamper ≡ ok request
          → send_raw_request link.again request ≡ ok r
          → P r)
      → All P (after_connect C o d u sk (ok link)).responses
  responses-All P first again = after_request-All link o.replay P _ first again
