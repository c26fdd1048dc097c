-- ===== src/Kafka/Verifier/Publish.antt =====
-- src/kafka/verifier.rs: what `process_record` publishes.
use zkp_verifier.Common.{
  ◌≡◌, refl, ap, sym, ◌∙◌, ◌↔◌, String, Bool, true, some, Outcome, ok, err, panic, Bytes,
  map_err-eq-ok,
}
use zkp_verifier.Curve.{Curve}
use zkp_verifier.Database.{Rusqlite}
use mathlib.Core.Option.{some-injective}
use zkp_verifier.Proof.{ZkpError}
use zkp_verifier.Protocol.{AuthResponse, KafkaAuthRequest, KafkaAuthResponse, Format}
use zkp_verifier.Protocol.KafkaResponse
use zkp_verifier.Codec.Stream.{RoundTrips}
use zkp_verifier.Replay.{ReplayProtector}
use zkp_verifier.Server.{handle_request}
use zkp_verifier.Server.Handle.{Admits, Authentic, handle_request-Admits_iff}
use zkp_verifier.Kafka.{Record, KafkaError}
use zkp_verifier.Kafka.Verifier.{
  Decision, decide, Moment, publish, after_decision, process_request, process_record, read_request,
}
use zkp_verifier.Kafka.Agree.{to_auth_request, kafka_success, tcp_success, decide-handle_request}

-- A record whose value reads as the response to this request, with this decision.
pub record Answers (response_json : Format KafkaAuthResponse) (req : KafkaAuthRequest)
    (success : Bool) (out : Record) : Type 0 where
  pub bytes : Bytes
  pub resp : KafkaAuthResponse
  pub value_is : out.value ≡ some bytes
  pub read : KafkaResponse.from_json_bytes response_json bytes ≡ ok resp
  pub id_is : resp.request_id ≡ req.request_id
  pub user_is : resp.user_id ≡ req.user_id
  pub success_is : resp.success ≡ success

pub Admits-of_tcp_success :
    (r : Outcome ZkpError AuthResponse) → (tcp_success r ≡ some true) ↔ Admits r
Admits-of_tcp_success (ok response) = (λ h. some-injective _ _ h, λ h. ap some h)
Admits-of_tcp_success (err e) = (λ h. cc, λ h. absurd h)
Admits-of_tcp_success panic = (λ h. cc, λ h. absurd h)

module _ (S : Rusqlite) (C : Curve) (json bincode : Format KafkaAuthRequest)
    (response_json : Format KafkaAuthResponse) (trip : RoundTrips response_json) (m : Moment C S)
    (p : ReplayProtector) (req : KafkaAuthRequest) where
  published-Answers :
      (success : Bool) (message : String) (q : ReplayProtector) (w : Outcome ZkpError Bytes)
      (out : Record)
      → KafkaResponse.to_json_bytes response_json
          (KafkaResponse.new m.millis req.request_id req.user_id success message)
        ≡ w
      → (publish C S json bincode response_json m req q w).published ≡ some out
      → Answers response_json req success out
  unfolding publish KafkaResponse.to_json_bytes KafkaResponse.from_json_bytes KafkaResponse.new
  published-Answers success message q (err e) out written h = cc
  published-Answers success message q panic out written h = cc
  published-Answers success message q (ok bytes) out written h =
      let response = KafkaResponse.new m.millis req.request_id req.user_id success message in
      record {
        bytes = bytes;
        resp = response;
        value_is = ap (λ (r : Record). r.value) (sym (some-injective _ _ h));
        read = rw (trip response bytes (map_err-eq-ok _ _ written)) refl;
        id_is = refl;
        user_is = refl;
        success_is = refl;
      }

  after_decision-Answers :
      (d : Outcome KafkaError Decision × ReplayProtector) (out : Record)
      → (after_decision C S json bincode response_json m req d).published ≡ some out
      → (success : Bool) × (kafka_success d.0 ≡ some success)
        × Answers response_json req success out
  unfolding after_decision
  after_decision-Answers (err e, q) out h = cc
  after_decision-Answers (panic, q) out h = cc
  after_decision-Answers (ok (success, message), q) out h =
      (success, refl, published-Answers success message q _ out refl h)

  decided_iff :
      (success : Bool)
      → kafka_success (decide C S m.conn p m.now req).0 ≡ some success
      → (success ≡ true) ↔ Authentic S C m.conn p m.now (to_auth_request req)
  decided_iff success e =
      let agree = (decide-handle_request S C m.conn p m.now req).0 in
      let let_in = handle_request-Admits_iff S C m.conn p m.now (to_auth_request req) in
      let admits =
        Admits-of_tcp_success (handle_request C S m.conn p m.now (to_auth_request req)).0 in
      (
        λ h. let_in.0 (admits.0 (sym agree ∙ e ∙ ap some h)),
        λ a. some-injective _ _ (sym e ∙ agree ∙ admits.1 (let_in.1 a)),
      )

  -- What `process_record` publishes for a record whose value reads as a request is read back as a
  -- response with the request's id and user, and it tells success exactly if the request is
  -- authentic: the lookup finds the key that it carries, the protector takes its proof, and the
  -- proof verifies. The format of the responses reads back what it writes.
  pub process_record-Answers :
      (r : Record) (value : Bytes) (out : Record)
      → r.value ≡ some value
      → read_request C S json bincode response_json value ≡ ok req
      → (process_record C S json bincode response_json m p r).published ≡ some out
      → (success : Bool) × Answers response_json req success out
        × ((success ≡ true) ↔ Authentic S C m.conn p m.now (to_auth_request req))
  unfolding process_record process_request
  process_record-Answers r value out is_value is_request h =
      let (success, decided, answers) =
        after_decision-Answers (decide C S m.conn p m.now req) out
          (rw (is_value, is_request) at h) in
      (success, answers, decided_iff success decided)
