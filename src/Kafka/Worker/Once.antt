-- ===== src/Kafka/Worker/Once.antt =====
-- src/kafka/verifier.rs: whom one run of the worker lets in, by the responses that it publishes.
use zkp_verifier.Common.{
  ◌≡◌, refl, sym, ◌∙◌, subst, String, Bool, true, false, Option, none, some, List, [], ◌∷◌, Outcome,
  ok, err, panic, Bytes, Bool-cases, inl, inr, if◌then◌else◌,
}
use zkp_verifier.Common.Int.{ℤ, ◌≤ℤ◌, IsI64}
use zkp_verifier.Curve.{Curve}
use zkp_verifier.Database.{Rusqlite}
use zkp_verifier.Proof.{ZkpError, Proof}
use zkp_verifier.Protocol.{AuthRequest, AuthResponse, KafkaAuthRequest, KafkaAuthResponse, Format}
use zkp_verifier.Protocol.KafkaResponse
use zkp_verifier.Codec.Stream.{RoundTrips}
use zkp_verifier.Replay.{ReplayProtector, new}
use zkp_verifier.Replay.Window.{IsSeconds}
use zkp_verifier.Server.{handle_request}
use zkp_verifier.Server.Handle.{Admits, handle_request-Admits_iff}
use zkp_verifier.Server.System.{Bank, log_answer, serve_request}
use zkp_verifier.Server.Guarded.{Distinct}
use zkp_verifier.Server.Invariant.{IsSafe, serve_request-IsSafe, tick-IsSafe, opened, opened-IsSafe}
use zkp_verifier.Kafka.{Record, KafkaError}
use zkp_verifier.Kafka.Verifier.{
  Decision, Moment, Processed, decide, publish, after_decision, process_request, process_record,
  read_request,
}
use zkp_verifier.Kafka.Agree.{to_auth_request, decide-handle_request}
use zkp_verifier.Kafka.Verifier.Publish.{process_record-Answers}
use zkp_verifier.Kafka.Worker.{Fetched, Event}
use zkp_verifier.Kafka.Worker.Batches.{records_of}

abbrev to_option : Outcome ZkpError KafkaAuthRequest → Option KafkaAuthRequest
to_option (ok req) = some req
to_option _ = none

abbrev success_in : Outcome ZkpError KafkaAuthResponse → Bool
success_in (ok resp) = resp.success
success_in _ = false

abbrev pub log_record :
    Option KafkaAuthRequest → Bool → List (String × Proof) → List (String × Proof)
log_record (some req) true log = (req.user_id, req.proof) ∷ log
log_record (some req) false log = log
log_record none success log = log

abbrev pub HasI64 : Option KafkaAuthRequest → Type 0
HasI64 (some req) = IsI64 req.proof.timestamp
HasI64 none = Unit

module _ (S : Rusqlite) (C : Curve) (json bincode : Format KafkaAuthRequest)
    (response_json : Format KafkaAuthResponse) where
  abbrev value_request : Option Bytes → Option KafkaAuthRequest
  value_request none = none
  value_request (some value) = to_option (read_request C S json bincode response_json value)

  -- The request that a record is read as.
  abbrev pub requested : Record → Option KafkaAuthRequest
  requested r = value_request r.value

  abbrev value_success : Option Bytes → Bool
  value_success none = false
  value_success (some bytes) = success_in (KafkaResponse.from_json_bytes response_json bytes)

  -- Whether a record is published that is read as a response with success.
  abbrev pub granted : Option Record → Bool
  granted none = false
  granted (some r) = value_success r.value

  abbrev ended : Outcome KafkaError (Unit {0}) → Bool
  ended panic = true
  ended _ = false

  -- The users that the worker lets in, each with the proof, the last one first, up to a panic.
  unfoldable pub admitted_by :
      ReplayProtector → List (Fetched C S) → List (String × Proof) → List (String × Proof)
  admitted_by p [] log = log
  admitted_by p (f ∷ fs) log =
      let r = process_record C S json bincode response_json f.moment p f.record_ in
      let log' = log_record (requested f.record_) (granted r.published) log in
      if ended r.result then log' else admitted_by r.protector fs log'

  -- The clock does not run backwards from record to record.
  abbrev pub InOrder : ℤ → List (Fetched C S) → Type 0
  InOrder clock [] = Unit
  InOrder clock (f ∷ fs) =
      (clock ≤ℤ f.moment.now)
      × IsSeconds f.moment.now
      × HasI64 (requested f.record_)
      × InOrder f.moment.now fs

-- The log without the entry of the last answer.
IsSafe-drop :
    (d : ℤ) (p : ReplayProtector) (clock : ℤ) (log : List (String × Proof)) (request : AuthRequest)
    (w : Outcome ZkpError AuthResponse)
    → IsSafe d (record { protector = p; clock = clock; admitted = log_answer request w log })
    → IsSafe d (record { protector = p; clock = clock; admitted = log })
IsSafe-drop d p clock log request (ok response) safe = elim (Bool-cases response.success) [
  | inl let_in ↦
      let whole = rw let_in at safe in
      record {
        valid = whole.valid;
        drift_is = whole.drift_is;
        clock_ok = whole.clock_ok;
        distinct = whole.distinct.1;
        guarded = whole.guarded.1;
      }
  | inr out ↦ rw out at safe
]
IsSafe-drop d p clock log request (err e) safe = safe
IsSafe-drop d p clock log request panic safe = safe

log_answer-Admits :
    (log : List (String × Proof)) (request : AuthRequest) (w : Outcome ZkpError AuthResponse)
    → Admits w
    → log_answer request w log ≡ (request.user_id, request.proof) ∷ log
log_answer-Admits log request (ok response) h = rw h refl
log_answer-Admits log request (err e) h = absurd h
log_answer-Admits log request panic h = absurd h

module _ (S : Rusqlite) (C : Curve) (json bincode : Format KafkaAuthRequest)
    (response_json : Format KafkaAuthResponse) (trip : RoundTrips response_json) (d : ℤ) where
  publish-protector :
      (m : Moment C S) (req : KafkaAuthRequest) (p : ReplayProtector) (w : Outcome ZkpError Bytes)
      → (publish C S json bincode response_json m req p w).protector ≡ p
  unfolding publish
  publish-protector m req p (ok bytes) = refl
  publish-protector m req p (err e) = refl
  publish-protector m req p panic = refl

  after_decision-protector :
      (m : Moment C S) (req : KafkaAuthRequest) (x : Outcome KafkaError Decision × ReplayProtector)
      → (after_decision C S json bincode response_json m req x).protector ≡ x.1
  unfolding after_decision
  after_decision-protector m req (ok (success, message), p) = publish-protector m req p _
  after_decision-protector m req (err e, p) = refl
  after_decision-protector m req (panic, p) = refl

  module _ (m : Moment C S) (b : Bank) (safe : IsSafe d b) (later : b.clock ≤ℤ m.now)
      (hn : IsSeconds m.now) (r : Record) where
    abbrev done : Processed C S
    done = process_record C S json bincode response_json m b.protector r

    abbrev at_now : Bank
    at_now = record b { clock = m.now }

    at_now-IsSafe : IsSafe d at_now
    at_now-IsSafe = tick-IsSafe S C d b m.now later hn safe

    module _ (value : Bytes) (is_value : r.value ≡ some value) (req : KafkaAuthRequest)
        (is_request : read_request C S json bincode response_json value ≡ ok req) where
      abbrev answer : Outcome ZkpError AuthResponse × ReplayProtector
      answer = handle_request C S m.conn b.protector m.now (to_auth_request req)

      done-protector : done.protector ≡ answer.1
      unfolding process_record zkp_verifier.Kafka.Verifier.process_value process_request
      done-protector =
          rw (is_value, is_request)
            (after_decision-protector m req (decide C S m.conn b.protector m.now req)
              ∙ (decide-handle_request S C m.conn b.protector m.now req).1)

      granted-Admits :
          (o : Option Record)
          → done.published ≡ o
          → granted S C json bincode response_json o ≡ true
          → Admits answer.0
      granted-Admits none e h = cc
      granted-Admits (some out) e h =
          let (success, answers, exactly) =
            process_record-Answers S C json bincode response_json trip m b.protector req r value out
              is_value is_request e in
          let told : answers.resp.success ≡ true = rw (answers.value_is, answers.read) at h in
          (handle_request-Admits_iff S C m.conn b.protector m.now (to_auth_request req)).1
            (exactly.0 (sym answers.success_is ∙ told))

      served-IsSafe :
          IsI64 req.proof.timestamp
          → IsSafe d (record {
            protector = done.protector;
            clock = m.now;
            admitted = log_answer (to_auth_request req) answer.0 b.admitted;
          })
      unfolding serve_request
      served-IsSafe ht =
          rw done-protector
            (serve_request-IsSafe S C d at_now at_now-IsSafe m.conn (to_auth_request req) ht)

      request-IsSafe :
          IsI64 req.proof.timestamp
          → (success : Bool) → granted S C json bincode response_json done.published ≡ success
          → IsSafe d (record {
            protector = done.protector;
            clock = m.now;
            admitted = log_record (some req) success b.admitted;
          })
      request-IsSafe ht true e =
          subst
            (λ log. IsSafe d (record { protector = done.protector; clock = m.now; admitted = log }))
            (log_answer-Admits b.admitted (to_auth_request req) answer.0
              (granted-Admits done.published refl e))
            (served-IsSafe ht)
      request-IsSafe ht false e =
          IsSafe-drop d done.protector m.now b.admitted (to_auth_request req) answer.0
            (served-IsSafe ht)

    -- What the state is after a record.
    abbrev SafeAfter : Option KafkaAuthRequest → Type 0
    SafeAfter req = IsSafe d (record {
      protector = done.protector;
      clock = m.now;
      admitted = log_record req (granted S C json bincode response_json done.published) b.admitted;
    })

    by_reading :
        (value : Bytes) (q : Outcome ZkpError KafkaAuthRequest)
        → r.value ≡ some value
        → read_request C S json bincode response_json value ≡ q
        → HasI64 (to_option q)
        → SafeAfter (to_option q)
    unfolding process_record zkp_verifier.Kafka.Verifier.process_value process_request
    by_reading value (ok req) v e ht = request-IsSafe value v req e ht _ refl
    by_reading value (err x) v e ht = rw (v, e) at_now-IsSafe
    by_reading value panic v e ht = rw (v, e) at_now-IsSafe

    by_value :
        (v : Option Bytes)
        → r.value ≡ v
        → HasI64 (value_request S C json bincode response_json v)
        → SafeAfter (value_request S C json bincode response_json v)
    unfolding process_record zkp_verifier.Kafka.Verifier.process_value
    by_value none v ht = rw v at_now-IsSafe
    by_value (some value) v ht =
        by_reading value (read_request C S json bincode response_json value) v refl ht

  admitted_by-Distinct :
      (fs : List (Fetched C S)) (b : Bank)
      → IsSafe d b
      → InOrder S C json bincode response_json b.clock fs
      → Distinct (admitted_by S C json bincode response_json b.protector fs b.admitted)
  unfolding admitted_by
  admitted_by-Distinct [] b safe order = safe.distinct
  admitted_by-Distinct (f ∷ fs) b safe (later, hn, ht, order) =
      let after = by_value f.moment b safe later hn f.record_ f.record_.value refl ht in
      let ih = admitted_by-Distinct fs _ after order in
      let r = process_record C S json bincode response_json f.moment b.protector f.record_ in
      elim (Bool-cases (ended S C json bincode response_json r.result)) [
        | inl stops ↦ rw stops after.distinct
        | inr goes_on ↦ rw goes_on ih
      ]

  -- A worker that was just started lets no user in twice with one proof: among the records that it
  -- fetches before the signal to stop, in their order and up to a panic, no two that read as
  -- requests of the same user with the same proof are both answered by a published response with
  -- success. The clock does not run backwards from record to record, the drift and the clock
  -- readings are at least 0 and below 2 ^ 62, the timestamps of the requests are i64s, and the
  -- format of the responses reads back what it writes.
  pub run-Distinct :
      (es : List (Event C S)) (clock : ℤ)
      → IsSeconds d
      → IsSeconds clock
      → InOrder S C json bincode response_json clock (records_of C S es)
      → Distinct (admitted_by S C json bincode response_json (new d) (records_of C S es) [])
  run-Distinct es clock hd hc order =
      admitted_by-Distinct (records_of C S es) (opened d clock) (opened-IsSafe d clock hd hc) order
