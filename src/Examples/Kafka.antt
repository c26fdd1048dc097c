-- ===== src/Examples/Kafka.antt =====
-- The worker and the prover's client, with formats that know one request and one response.
use zkp_verifier.Common.{
  ◌≡◌, refl, ap, sym, ◌∙◌, ◌↔◌, ◌&&◌, not, Bool, Bool-cases, inl, inr, true, false, String, Option,
  none, some, List, [], ◌∷◌, Outcome, ok, err, Bytes, arith, nat_beq, nat_beq_iff, ◌==◌, string_eq,
  if◌then◌else◌, ◌>>=◌,
}
use zkp_verifier.Common.Int.{ℤ, pos, negsuc}
use zkp_verifier.Protocol.{KafkaAuthRequest, KafkaAuthResponse, Format}
use zkp_verifier.Protocol.KafkaRequest
use zkp_verifier.Protocol.KafkaResponse
use zkp_verifier.Codec.Stream.{RoundTrips}
use zkp_verifier.Common.Int.{sub_i64, neg_i64}
use zkp_verifier.HashMap
use zkp_verifier.Proof.{Proof}
use zkp_verifier.Engine.{public_to_bytes}
use zkp_verifier.Replay.{check_and_record, check_drift, record_nonce}
use zkp_verifier.Server.Handle.{Authentic}
use zkp_verifier.Kafka.{Record, brings, brings_error}
use zkp_verifier.Kafka.Agree.{to_auth_request}
use zkp_verifier.Kafka.Verifier.{Moment, read_request, process_record}
use zkp_verifier.Kafka.Verifier.Publish.{Answers, process_record-Answers}
use zkp_verifier.Kafka.Worker.Batches.{records_of, ending_of, finish, run-records_of}
use zkp_verifier.Kafka.Worker.{Event, shutdown, process_records, fetched, panicked, run}
use zkp_verifier.Kafka.Worker.Panic.{run-panics}
use zkp_verifier.Kafka.Prover.{Fetch, wait_for_response}
use zkp_verifier.Examples.Group.{point_bytes, two, two-IsGroup, two-IsEncoding}
use zkp_verifier.Examples.Engine.{even}
use zkp_verifier.Examples.Replay.{minute}
use zkp_verifier.Examples.Database.{lists}
use zkp_verifier.Examples.Registry.{one_user, found_alice}

abbrev welcome_text : String
welcome_text = "ZKP Identity verified successfully for 'alice'"

abbrev pub admitted : KafkaAuthResponse
admitted = record {
  request_id = "r1";
  user_id = "alice";
  success = true;
  message = welcome_text;
  timestamp = pos 5;
}

abbrev pub is_five : ℤ → Bool
is_five (pos n) = nat_beq n 5
is_five (negsuc n) = false

abbrev is_admitted : KafkaAuthResponse → Bool
is_admitted r =
    (r.request_id == "r1")
    && (r.user_id == "alice")
    && r.success
    && (r.message == welcome_text)
    && is_five r.timestamp

abbrev pub response_format : Format KafkaAuthResponse
response_format = record {
  serialize = λ r. if is_admitted r then ok (1 ∷ []) else err "unknown response";
  deserialize = λ b. ok admitted;
}

is_five-pos : (t : ℤ) → is_five t ≡ true → t ≡ pos 5
is_five-pos (pos n) h = ap pos ((nat_beq_iff n 5).0 h)
is_five-pos (negsuc n) h = cc

is_admitted-parts :
    (r : KafkaAuthResponse)
    → is_admitted r ≡ true
    → (r.request_id ≡ "r1")
      × (r.user_id ≡ "alice")
      × (r.success ≡ true)
      × (r.message ≡ welcome_text)
      × (r.timestamp ≡ pos 5)
is_admitted-parts r h = ground (
  arith,
  string_eq.beq_iff r.request_id "r1",
  string_eq.beq_iff r.user_id "alice",
  string_eq.beq_iff r.message welcome_text,
  is_five-pos r.timestamp,
)

same_response : (r : KafkaAuthResponse) → is_admitted r ≡ true → r ≡ admitted
same_response r h =
    let (id, user, success, message, time) = is_admitted-parts r h in
    λ i. record {
      request_id = id i;
      user_id = user i;
      success = success i;
      message = message i;
      timestamp = time i;
    }

pub response_format-RoundTrips : RoundTrips response_format
response_format-RoundTrips r payload h = elim (Bool-cases (is_admitted r)) [
  | inl known ↦ ap ok (sym (same_response r known))
  | inr other ↦ cc (rw other at h)
]

-- The topic of the requests carries one request, with this proof.
abbrev pub request_with : Proof → KafkaAuthRequest
request_with proof = record {
  request_id = "r1";
  user_id = "alice";
  public_key = point_bytes true;
  proof = proof;
  timestamp = pos 1000000;
}

abbrev pub knows : KafkaAuthRequest → Format KafkaAuthRequest
knows req = record { serialize = λ r. err "not in use"; deserialize = λ b. ok req }

abbrev pub moment : Moment two lists
moment = record { conn = one_user; now = pos 1000; millis = pos 5; stamp = pos 7; produced = ok tt }

abbrev pub incoming : Record
incoming = record { key = some "alice"; value = some (0 ∷ []); timestamp = pos 1 }

abbrev pub outgoing : Record
outgoing = record { key = some "alice"; value = some (1 ∷ []); timestamp = pos 7 }

pub reads :
    (req : KafkaAuthRequest)
    → read_request two lists (knows req) (knows req) response_format (0 ∷ []) ≡ ok req
unfolding read_request KafkaRequest.from_json_bytes
reads req = refl

pub publishes :
    (process_record two lists
      (knows (request_with even))
      (knows (request_with even))
      response_format
      moment
      minute
      incoming).published
    ≡ some outgoing
unfolding process_record KafkaRequest.from_json_bytes zkp_verifier.Kafka.Verifier.decide
    zkp_verifier.Storage.get_public_key string_eq zkp_verifier.Engine.public_from_bytes
    public_to_bytes check_and_record check_drift sub_i64 neg_i64 record_nonce HashMap.get
    HashMap.retain zkp_verifier.Engine.verify zkp_verifier.Engine.compute_challenge
    zkp_verifier.Common.Word.i64_to_be_bytes KafkaResponse.to_json_bytes KafkaResponse.new
publishes = refl

process_record-Answers_example :
    (success : Bool) × Answers response_format (request_with even) success outgoing
    × ((success ≡ true)
        ↔ Authentic lists two one_user minute (pos 1000) (to_auth_request (request_with even)))
process_record-Answers_example =
    process_record-Answers lists two (knows (request_with even)) (knows (request_with even))
      response_format response_format-RoundTrips moment minute (request_with even) incoming (0 ∷ [])
      outgoing refl (reads (request_with even)) publishes

abbrev short_response : Proof
short_response = record even { s_scalar = [] }

taken_short : (check_and_record minute (pos 1000) "alice" short_response).0 ≡ ok tt
unfolding check_and_record record_nonce check_drift sub_i64 neg_i64 HashMap.get HashMap.retain
taken_short = refl

same_key : point_bytes true ≡ public_to_bytes two true
unfolding public_to_bytes
same_key = refl

run-panics_example :
    (run two lists
      (knows (request_with short_response))
      (knows (request_with short_response))
      response_format
      (pos 0)
      minute
      (fetched (record { offset = pos 0; record_ = incoming; moment = moment } ∷ []) (pos 1)
        ∷ [])).ending
    ≡ panicked
run-panics_example =
    run-panics lists two two-IsGroup two-IsEncoding (request_with short_response) true
      {encoded = point_bytes true} same_key refl (λ e. omega (arith, e))
      (knows (request_with short_response)) (knows (request_with short_response)) response_format
      (record { offset = pos 0; record_ = incoming; moment = moment }) (0 ∷ []) refl
      (reads (request_with short_response)) minute found_alice taken_short (pos 0) (pos 1) [] []

-- The client's rounds: an error, then a fetch that brings a record without a value and the answer.
abbrev pub rounds : List Fetch
rounds =
    (λ offset. brings_error "timeout")
    ∷ (λ offset. brings ((pos 0, record outgoing { value = none }) ∷ (pos 1, outgoing) ∷ []))
    ∷ []

waited : wait_for_response response_format "r1" (brings (pos 0)) rounds ≡ some admitted
unfolding wait_for_response KafkaResponse.from_json_bytes string_eq
waited = refl

-- Two fetches of one record each, and the signal to stop.
abbrev events : List (Event two lists)
events =
    fetched (record { offset = pos 0; record_ = incoming; moment = moment } ∷ []) (pos 2)
    ∷ shutdown false
    ∷ fetched (record { offset = pos 1; record_ = incoming; moment = moment } ∷ []) (pos 2)
    ∷ shutdown true
    ∷ []

run-records_of_example :
    run two lists
      (knows (request_with even))
      (knows (request_with even))
      response_format
      (pos 0)
      minute
      events
    ≡ process_records two lists
        (knows (request_with even))
        (knows (request_with even))
        response_format
        (pos 0)
        minute
        (records_of two lists events)
        (finish two lists (ending_of two lists events))
run-records_of_example =
    run-records_of two lists (knows (request_with even)) (knows (request_with even)) response_format
      events (pos 0) minute
