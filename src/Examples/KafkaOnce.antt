-- ===== src/Examples/KafkaOnce.antt =====
-- Alice's record comes twice to the worker.
use zkp_verifier.Common.{◌≡◌, refl, arith, List, [], ◌∷◌}
use zkp_verifier.Common.Int.{pos}
use zkp_verifier.Replay.{new}
use zkp_verifier.Server.Guarded.{Distinct}
use zkp_verifier.Kafka.Verifier.{read_request}
use zkp_verifier.Kafka.Worker.{Event, fetched}
use zkp_verifier.Kafka.Worker.Batches.{records_of}
use zkp_verifier.Kafka.Worker.Once.{admitted_by, run-Distinct}
use zkp_verifier.Examples.Group.{two}
use zkp_verifier.Examples.Database.{lists}
use zkp_verifier.Examples.Engine.{odd}
use zkp_verifier.Examples.Kafka.{
  knows, request_with, response_format, response_format-RoundTrips, moment, incoming,
}

abbrev once_more : List (Event two lists)
once_more =
    fetched (record { offset = pos 0; record_ = incoming; moment = moment } ∷ []) (pos 1)
    ∷ fetched (record { offset = pos 1; record_ = incoming; moment = moment } ∷ []) (pos 2)
    ∷ []

run-Distinct_example : Distinct (
    admitted_by lists two
      (knows (request_with odd))
      (knows (request_with odd))
      response_format
      (new (pos 60))
      (records_of two lists once_more)
      [])
unfolding records_of read_request zkp_verifier.Protocol.KafkaRequest.from_json_bytes
run-Distinct_example =
    run-Distinct lists two (knows (request_with odd)) (knows (request_with odd)) response_format
      response_format-RoundTrips (pos 60) once_more (pos 1000) (refl, omega arith)
      (refl, omega arith) (omega arith)

let_in_once :
    admitted_by lists two
      (knows (request_with odd))
      (knows (request_with odd))
      response_format
      (new (pos 60))
      (records_of two lists once_more)
      []
    ≡ ("alice", odd) ∷ []
unfolding admitted_by records_of zkp_verifier.Kafka.Verifier.process_record
    zkp_verifier.Protocol.KafkaRequest.from_json_bytes zkp_verifier.Kafka.Verifier.decide
    zkp_verifier.Storage.get_public_key zkp_verifier.Common.string_eq
    zkp_verifier.Engine.public_from_bytes zkp_verifier.Engine.public_to_bytes
    zkp_verifier.Replay.check_and_record zkp_verifier.Replay.check_drift
    zkp_verifier.Common.Int.sub_i64 zkp_verifier.Common.Int.neg_i64 new
    zkp_verifier.Replay.record_nonce zkp_verifier.HashMap.get zkp_verifier.HashMap.retain
    zkp_verifier.HashMap.insert zkp_verifier.Engine.verify zkp_verifier.Engine.compute_challenge
    zkp_verifier.Common.Word.i64_to_be_bytes zkp_verifier.Protocol.KafkaResponse.to_json_bytes
    zkp_verifier.Protocol.KafkaResponse.from_json_bytes zkp_verifier.Protocol.KafkaResponse.new
    read_request zkp_verifier.Common.bytes_eq zkp_verifier.Replay.key_eq
let_in_once = refl
