-- ===== src/Examples/KafkaLogin.antt =====
-- Alice's proof goes through the two topics.
use zkp_verifier.Common.{
  ◌≡◌, refl, ap, sym, ◌∙◌, ◌&&◌, Bool, Bool-cases, inl, inr, true, false, String, Option, none,
  some, List, [], ◌∷◌, ◌++◌, ℕ, suc, zero, Outcome, ok, err, Bytes, arith, nat_beq, nat_beq_iff,
  ◌==◌, string_eq, bytes_beq, bytes_beq_iff, if◌then◌else◌, length, ap₂, ◌⊎◌,
}
use zkp_verifier.Common.Int.{ℤ, pos, negsuc, ◌+ℤ◌, eq_of_parts, int_laws}
use zkp_verifier.Protocol.{KafkaAuthRequest, KafkaAuthResponse, Format}
use zkp_verifier.Protocol.KafkaResponse
use zkp_verifier.Engine.{generate_proof, public_key}
use zkp_verifier.Kafka.{Record, brings}
use zkp_verifier.Kafka.Verifier.{Moment, process_record}
use zkp_verifier.Kafka.Prover.{Draw, Fetch, submit_verification, wait_for_response}
use zkp_verifier.Kafka.Prover.Finds.{wait_for_response-first_answer}
use zkp_verifier.Kafka.Log.{Advances, Rounds, over, served, first_answer, number_from}
use zkp_verifier.Kafka.Login.{kafka_welcome}
use zkp_verifier.Programs.KafkaProver.{Broker, replay_test}
use zkp_verifier.Programs.KafkaReplay.{replay_test_blind}
use zkp_verifier.HashMap
use zkp_verifier.Replay.Table.{live}
use zkp_verifier.Replay.Window.{InWindow}
use zkp_verifier.Examples.Group.{two, two-IsGroup, two-IsEncoding}
use zkp_verifier.Examples.Engine.{odd}
use zkp_verifier.Examples.Replay.{minute, minute-IsValid}
use zkp_verifier.Examples.Database.{lists}
use zkp_verifier.Examples.Client.{found_key, made_draw}
use zkp_verifier.Examples.Kafka.{
  response_format, response_format-RoundTrips, moment, outgoing, request_with, admitted,
}
use zkp_verifier.Examples.KafkaFormat.{is_at, request_format, request_format-RoundTrips}

-- The topic of the responses has one record, which a fetch at its offset brings.
abbrev one_answer : List Record
one_answer = outgoing ∷ []

abbrev fetch_answer : Fetch
fetch_answer = λ offset. if is_at 0 offset then brings ((offset, outgoing) ∷ []) else brings []

pub from_zero : (n : ℕ) → pos 0 +ℤ pos n ≡ pos n
from_zero n = eq_of_parts _ _ (omega int_laws)

fetch_answer-Advances : Advances (pos 0) one_answer fetch_answer
unfolding number_from
fetch_answer-Advances [] after cut =
    (one_answer, [], sym cut, rw (from_zero 0) refl, inr (omega arith))
fetch_answer-Advances (r ∷ []) [] cut = ([], [], refl, rw (from_zero 1) refl, inl refl)
fetch_answer-Advances (r ∷ []) (x ∷ after) cut = absurd (omega (arith, ap length cut))
fetch_answer-Advances (r ∷ q ∷ before) after cut = absurd (omega (arith, ap length cut))

on_log : Rounds (pos 0) one_answer 1 (fetch_answer ∷ [])
on_log = served fetch_answer-Advances over

answers_first : first_answer response_format "r1" one_answer ≡ some admitted
unfolding first_answer KafkaResponse.from_json_bytes string_eq
answers_first = refl

wait_for_response-first_answer_example :
    wait_for_response response_format "r1" (brings (pos 0)) (fetch_answer ∷ [])
    ≡ first_answer response_format "r1" one_answer
wait_for_response-first_answer_example =
    wait_for_response-first_answer response_format "r1" (pos 0) one_answer 1 (fetch_answer ∷ [])
      on_log (omega arith)

abbrev draw : Draw two
draw = record {
  now = pos 1000;
  nonce = 2 ∷ [];
  k = true;
  uuid = "r1";
  millis = pos 1000000;
  stamp = pos 1;
  produced = ok tt;
}

abbrev sent : Record
sent = record { key = some "alice"; value = some (2 ∷ []); timestamp = pos 1 }

alice_submits :
    submit_verification two request_format draw "alice" true false
    ≡ (some sent, ok (request_with odd))
unfolding submit_verification generate_proof zkp_verifier.Engine.compute_challenge public_key
    zkp_verifier.Common.Word.i64_to_be_bytes zkp_verifier.Protocol.KafkaRequest.to_json_bytes
    string_eq zkp_verifier.Protocol.KafkaRequest.new zkp_verifier.Engine.public_to_bytes
alice_submits = refl

worker_answers :
    (process_record two lists request_format request_format response_format moment minute
      sent).published
    ≡ some outgoing
unfolding process_record zkp_verifier.Protocol.KafkaRequest.from_json_bytes
    zkp_verifier.Kafka.Verifier.decide zkp_verifier.Storage.get_public_key string_eq
    zkp_verifier.Engine.public_from_bytes zkp_verifier.Engine.public_to_bytes
    zkp_verifier.Replay.check_and_record zkp_verifier.Replay.check_drift
    zkp_verifier.Common.Int.sub_i64 zkp_verifier.Common.Int.neg_i64 zkp_verifier.Replay.record_nonce
    HashMap.get HashMap.retain zkp_verifier.Engine.verify zkp_verifier.Engine.compute_challenge
    zkp_verifier.Common.Word.i64_to_be_bytes KafkaResponse.to_json_bytes KafkaResponse.new
worker_answers = refl

on_time : InWindow (pos 60) (pos 1000) (pos 1000)
unfolding ◌+ℤ◌
on_time = (omega arith, omega arith)

unseen_now : live minute (pos 1000) ("alice", draw.nonce) ≡ none
unfolding HashMap.get
unseen_now = refl

kafka_welcome_example :
    (resp : KafkaAuthResponse) × (wait_for_response response_format "r1"
        (brings (pos 0))
        (fetch_answer ∷ [])
      ≡ some resp)
    × (resp.user_id ≡ "alice")
    × (resp.success ≡ true)
unfolding first_answer
kafka_welcome_example =
    kafka_welcome lists two two-IsGroup two-IsEncoding request_format request_format response_format
      request_format-RoundTrips response_format-RoundTrips draw "alice" true odd made_draw (λ e. cc)
      moment minute found_key minute-IsValid (refl, omega arith) (omega arith, omega arith) on_time
      unseen_now sent outgoing (request_with odd) [] [] (pos 0) 1 (fetch_answer ∷ []) alice_submits
      worker_answers refl on_log (omega arith)

-- The prover's program waits for the answer to the replay, and finds the answer to the first request.
abbrev broker : Broker
broker = record {
  connected = ok tt;
  earliest = brings (pos 0);
  rounds = fetch_answer ∷ [];
  replay_stamp = pos 9;
  replay_client = ok tt;
  replay_produced = ok tt;
  replay_earliest = brings (pos 0);
  replay_rounds = fetch_answer ∷ [];
}

replay_test_blind_example :
    ((replay_test request_format response_format broker true "alice" (request_with odd)).waits
      ≡ some admitted ∷ [])
    ⊎ ((replay_test request_format response_format broker true "alice" (request_with odd)).waits
        ≡ none ∷ [])
unfolding zkp_verifier.Protocol.KafkaRequest.to_json_bytes string_eq
replay_test_blind_example =
    replay_test_blind request_format response_format broker "alice" (request_with odd) (2 ∷ [])
      (pos 0) one_answer [] admitted 1 refl refl refl refl on_log answers_first
