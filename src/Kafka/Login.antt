-- ===== src/Kafka/Login.antt =====
-- src/kafka/prover.rs with src/kafka/verifier.rs: a proof that is submitted, verified by the worker, and
-- answered on the topic of the responses.
use zkp_verifier.Common.{
  >>=-eq-ok, ℕ, ◌≤◌, ◌≡◌, ◌≢◌, refl, ap, sym, ◌∙◌, subst, String, Bool, true, false, none, some,
  List, ◌∷◌, ◌++◌, Outcome, ok, err, panic, Bytes, length, string_eq, map_err, map_err-eq-ok,
  ok_inj,
}
use mathlib.Core.Option.{some-injective}
use zkp_verifier.Common.Int.{ℤ, IsI64}
use zkp_verifier.Curve.{Curve, IsGroup, IsEncoding}
use zkp_verifier.Database.{Rusqlite}
use zkp_verifier.Proof.{ZkpError, Proof}
use zkp_verifier.Protocol.{KafkaAuthRequest, KafkaAuthResponse, Format}
use zkp_verifier.Protocol.KafkaRequest
use zkp_verifier.Codec.Stream.{RoundTrips}
use zkp_verifier.Engine.{public_key, public_to_bytes, generate_proof}
use zkp_verifier.Storage.{get_public_key}
use zkp_verifier.Replay.{ReplayProtector}
use zkp_verifier.Replay.Window.{IsSeconds, InWindow}
use zkp_verifier.Replay.Trace.{IsValid}
use zkp_verifier.Replay.Table.{live}
use zkp_verifier.Server.Handle.{Authentic}
use zkp_verifier.Client.Login.{honest-Authentic}
use zkp_verifier.Kafka.{Record, client_error, brings}
use zkp_verifier.Kafka.Agree.{to_auth_request}
use zkp_verifier.Kafka.Verifier.{Moment, read_request, process_record}
use zkp_verifier.Kafka.Verifier.Publish.{Answers, process_record-Answers}
use zkp_verifier.Kafka.Prover.{
  Draw, Submitted, Fetch, send_payload, submit_verification, wait_for_response,
}
use zkp_verifier.Kafka.Log.{Rounds, or_else, first_answer}
use zkp_verifier.Kafka.Prover.Scan.{first_answer-append}
use zkp_verifier.Kafka.Prover.Finds.{wait_for_response-first_answer}

-- A record that answers a request is the first answer behind records that do not.
first_answer-Answers :
    (response_json : Format KafkaAuthResponse) (req : KafkaAuthRequest) (success : Bool)
    (out : Record) (before after : List Record) (a : Answers response_json req success out)
    → first_answer response_json req.request_id before ≡ none
    → first_answer response_json req.request_id (before ++ (out ∷ after)) ≡ some a.resp
unfolding first_answer string_eq
first_answer-Answers response_json req success out before after a nothing =
    first_answer-append response_json req.request_id before (out ∷ after)
    ∙ ap (λ x. or_else x (first_answer response_json req.request_id (out ∷ after))) nothing
    ∙ rw (a.value_is, a.read, (string_eq.beq_iff a.resp.request_id req.request_id).1 a.id_is) refl

module _ (C : Curve) (json : Format KafkaAuthRequest) (d : Draw C) (u : String) (sk : C.Scalar)
    (f : Proof) (made : generate_proof C sk (public_key C sk) d.now d.nonce d.k ≡ ok f) where
  -- The request that a proof is submitted in.
  abbrev submitted : KafkaAuthRequest
  submitted = record {
    request_id = d.uuid;
    user_id = u;
    public_key = public_to_bytes C (public_key C sk);
    proof = f;
    timestamp = d.millis;
  }

  -- The record carries what the format writes of it.
  record Carries (sent : Record) : Type 0 where
    payload : Bytes
    value_is : sent.value ≡ some payload
    written : json.serialize submitted ≡ ok payload

  send_payload-Carries :
      (w : Outcome ZkpError Bytes) (sent : Record) (req : KafkaAuthRequest)
      → KafkaRequest.to_json_bytes json submitted ≡ w
      → send_payload C d submitted w ≡ (some sent, ok req)
      → (req ≡ submitted) × Carries sent
  unfolding send_payload KafkaRequest.to_json_bytes
  send_payload-Carries (ok payload) sent req written h =
      let (_, _, same) =
        >>=-eq-ok (map_err client_error d.produced) _ (ap (λ (r : Submitted C). r.1) h) in
      (
        sym (ok_inj same),
        record {
          payload = payload;
          value_is =
              ap (λ (r : Record). r.value)
                (sym (some-injective _ _ (ap (λ (r : Submitted C). r.0) h)));
          written = map_err-eq-ok _ _ written;
        },
      )
  send_payload-Carries (err e) sent req written h = cc (ap (λ (r : Submitted C). r.0) h)
  send_payload-Carries panic sent req written h = cc (ap (λ (r : Submitted C). r.0) h)

  submit_verification-Carries :
      (sent : Record) (req : KafkaAuthRequest)
      → submit_verification C json d u sk false ≡ (some sent, ok req)
      → (req ≡ submitted) × Carries sent
  unfolding submit_verification KafkaRequest.new
  submit_verification-Carries sent req h =
      send_payload-Carries (KafkaRequest.to_json_bytes json submitted) sent req refl (rw made at h)

module _ (S : Rusqlite) (C : Curve) (g : IsGroup C) (enc : IsEncoding C g)
    (json bincode : Format KafkaAuthRequest) (response_json : Format KafkaAuthResponse)
    (trip : RoundTrips json) (response_trip : RoundTrips response_json) (d : Draw C) (u : String)
    (sk : C.Scalar) (f : Proof)
    (made : generate_proof C sk (public_key C sk) d.now d.nonce d.k ≡ ok f)
    (nonzero : C.mul C.generator d.k ≢ g.identity) (m : Moment C S) (p : ReplayProtector)
    (registered : get_public_key S C m.conn u ≡ ok (some (public_key C sk))) (v : IsValid p)
    (hn : IsSeconds m.now) (ht : IsI64 d.now) (window : InWindow p.max_drift_secs m.now d.now)
    (fresh : live p m.now (u, d.nonce) ≡ none) where
  submitted-Authentic :
      Authentic S C m.conn p m.now (to_auth_request (submitted C json d u sk f made))
  submitted-Authentic =
      honest-Authentic S C m.conn p m.now g enc sk u
        (record { now = d.now; nonce = d.nonce; k = d.k }) f made nonzero registered v hn ht window
        fresh

  read_request-Carries :
      (sent : Record) (c : Carries C json d u sk f made sent)
      → read_request C S json bincode response_json c.payload ≡ ok (submitted C json d u sk f made)
  unfolding read_request KafkaRequest.from_json_bytes
  read_request-Carries sent c = rw (trip (submitted C json d u sk f made) c.payload c.written) refl

  processed-Answers :
      (sent out : Record)
      → Carries C json d u sk f made sent
      → (process_record C S json bincode response_json m p sent).published ≡ some out
      → Answers response_json (submitted C json d u sk f made) true out
  processed-Answers sent out c published =
      let (success, answers, iff) =
        process_record-Answers S C json bincode response_json response_trip m p
          (submitted C json d u sk f made) sent c.payload out c.value_is
          (read_request-Carries sent c) published in
      subst (λ b. Answers response_json (submitted C json d u sk f made) b out)
        (iff.1 submitted-Authentic) answers

  -- A proof that `submit_verification` publishes without an error for the key of a registered user,
  -- and that `process_record` answers, is answered with success, and `wait_for_response` returns
  -- that response. The formats read back what they write, the topic of the responses is a log in
  -- which no record before the answer answers the request, the rounds of the wait that advance are
  -- at least as many as its records, the nonce scalar does not give the identity, the protector is
  -- valid, the worker's clock is from 0 to below 2 ^ 62, the client's clock is an i64 within the
  -- drift of it, and the drawn nonce does not stand in the table with a timestamp that is not below
  -- the cutoff.
  pub kafka_welcome :
      (sent out : Record) (req : KafkaAuthRequest) (before after : List Record) (base : ℤ) (n : ℕ)
      (rounds : List Fetch)
      → submit_verification C json d u sk false ≡ (some sent, ok req)
      → (process_record C S json bincode response_json m p sent).published ≡ some out
      → first_answer response_json req.request_id before ≡ none
      → Rounds base (before ++ (out ∷ after)) n rounds
      → length (before ++ (out ∷ after)) ≤ n
      → (resp : KafkaAuthResponse) × (wait_for_response response_json req.request_id
            (brings base)
            rounds
          ≡ some resp)
        × (resp.user_id ≡ u)
        × (resp.success ≡ true)
  kafka_welcome sent out req before after base n rounds sending published nothing on_log enough =
      let (req_is, c) = submit_verification-Carries C json d u sk f made sent req sending in
      let a = processed-Answers sent out c published in
      let id : req.request_id ≡ d.uuid = ap (λ (r : KafkaAuthRequest). r.request_id) req_is in
      (
        a.resp,
        wait_for_response-first_answer response_json req.request_id base (before ++ (out ∷ after)) n
              rounds on_log enough
            ∙ ap (λ i. first_answer response_json i (before ++ (out ∷ after))) id
            ∙ first_answer-Answers response_json (submitted C json d u sk f made) true out before
                after a (subst (λ i. first_answer response_json i before ≡ none) id nothing),
        a.user_is,
        a.success_is,
      )
