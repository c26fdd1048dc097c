-- ===== src/Kafka/Verifier.antt =====
-- src/kafka/verifier.rs: `KafkaVerifierWorker`. The registry, the clocks, and what the Kafka client
-- answers come in with each record.
pub mod Publish
use zkp_verifier.Common.{
  String, ◌<>◌, Bool, true, false, Option, none, some, Outcome, ok, err, panic, map_err, not, Bytes,
  bytes_beq, if◌then◌else◌,
}
use zkp_verifier.Common.Int.{ℤ}
use zkp_verifier.Curve.{Curve}
use zkp_verifier.Database.{Rusqlite}
use zkp_verifier.Proof
use zkp_verifier.Proof.{ZkpError}
use zkp_verifier.Protocol.{KafkaAuthRequest, KafkaAuthResponse, Format}
use zkp_verifier.Protocol.KafkaRequest
use zkp_verifier.Protocol.KafkaResponse
use zkp_verifier.Engine.{public_to_bytes, verify}
use zkp_verifier.Replay
use zkp_verifier.Replay.{ReplayError, ReplayProtector, check_and_record}
use zkp_verifier.Storage
use zkp_verifier.Storage.{StorageError, get_public_key}
use zkp_verifier.Kafka.{Record, KafkaError, zkp_error, client_error}

-- Success and message.
abbrev pub Decision : Type 0
Decision = Bool × String

unfoldable pub verdict : String → Outcome ZkpError Bool → Outcome KafkaError Decision
verdict user_id (ok true) = ok (true, "ZKP Identity verified successfully for '" <> user_id <> "'")
verdict user_id (ok false) = ok (false, "Verification failed: Mathematical check failed")
verdict user_id (err e) = ok (false, "Cryptographic math error: " <> Proof.display e)
verdict user_id panic = panic

module _ (C : Curve) where
  unfoldable pub after_replay :
      C.Point
      → KafkaAuthRequest
      → Outcome ReplayError (Unit {0}) × ReplayProtector
      → Outcome KafkaError Decision × ReplayProtector
  unfolding verdict
  after_replay pk req (err e, p) = (ok (false, "Security rejection: " <> Replay.display e), p)
  after_replay pk req (ok _, p) = (verdict req.user_id (verify C pk req.proof), p)
  after_replay pk req (panic, p) = (panic, p)

  unfoldable pub after_lookup :
      ReplayProtector
      → ℤ
      → KafkaAuthRequest
      → Outcome StorageError (Option C.Point)
      → Outcome KafkaError Decision × ReplayProtector
  unfolding after_replay
  after_lookup p now req (ok (some registered_pk)) =
      if not (bytes_beq req.public_key (public_to_bytes C registered_pk))
      then (ok (false, "Authentication failed: Public key does not match bank records"), p)
      else after_replay registered_pk req (check_and_record p now req.user_id req.proof)
  after_lookup p now req (ok none) = (
    ok (false, "Authentication failed: User '" <> req.user_id <> "' is not registered with bank"),
    p,
  )
  after_lookup p now req (err e) = (ok (false, "Database storage error: " <> Storage.display e), p)
  after_lookup p now req panic = (panic, p)

  module _ (S : Rusqlite) where
    unfoldable pub decide :
        S.Connection
        → ReplayProtector
        → ℤ
        → KafkaAuthRequest
        → Outcome KafkaError Decision × ReplayProtector
    unfolding after_lookup
    decide conn p now req = after_lookup p now req (get_public_key S C conn req.user_id)

    -- What a record meets: the registry, the clock in seconds, the clock in milliseconds for the
    -- response, the clock for the published record, and the answer of `produce`.
    pub record Moment : Type 0 where
      pub conn : S.Connection
      pub now : ℤ
      pub millis : ℤ
      pub stamp : ℤ
      pub produced : Outcome String (Unit {0})

    -- The record that was handed to `produce`, the protector, and the result.
    pub record Processed : Type 0 where
      pub published : Option Record
      pub protector : ReplayProtector
      pub result : Outcome KafkaError (Unit {0})

    abbrev pub processed :
        Option Record → ReplayProtector → Outcome KafkaError (Unit {0}) → Processed
    processed published p result = record { published = published; protector = p; result = result }

    module _ (json : Format KafkaAuthRequest) (bincode : Format KafkaAuthRequest)
        (response_json : Format KafkaAuthResponse) where
      -- JSON, or else bincode.
      abbrev pub or_bincode :
          Bytes → Outcome ZkpError KafkaAuthRequest → Outcome ZkpError KafkaAuthRequest
      or_bincode value (ok req) = ok req
      or_bincode value (err _) = KafkaRequest.from_bincode_bytes bincode value
      or_bincode value panic = panic

      unfoldable pub read_request : Bytes → Outcome ZkpError KafkaAuthRequest
      read_request value = or_bincode value (KafkaRequest.from_json_bytes json value)

      unfoldable pub publish :
          Moment → KafkaAuthRequest → ReplayProtector → Outcome ZkpError Bytes → Processed
      publish m req p (ok resp_bytes) =
          processed
            (some (record { key = some req.user_id; value = some resp_bytes; timestamp = m.stamp }))
            p (map_err client_error m.produced)
      publish m req p (err e) = processed none p (err (zkp_error e))
      publish m req p panic = processed none p panic

      unfoldable pub after_decision :
          Moment → KafkaAuthRequest → Outcome KafkaError Decision × ReplayProtector → Processed
      unfolding publish
      after_decision m req (ok (success, message), p) = publish m req p (
          KafkaResponse.to_json_bytes response_json
            (KafkaResponse.new m.millis req.request_id req.user_id success message))
      after_decision m req (err e, p) = processed none p (err e)
      after_decision m req (panic, p) = processed none p panic

      unfoldable pub process_request :
          Moment → ReplayProtector → Outcome ZkpError KafkaAuthRequest → Processed
      unfolding after_decision
      process_request m p (ok req) = after_decision m req (decide m.conn p m.now req)
      process_request m p (err e) = processed none p (err (zkp_error e))
      process_request m p panic = processed none p panic

      unfoldable pub process_value : Moment → ReplayProtector → Option Bytes → Processed
      unfolding process_request read_request
      process_value m p none = processed none p (ok tt)
      process_value m p (some value) = process_request m p (read_request value)

      unfoldable pub process_record : Moment → ReplayProtector → Record → Processed
      unfolding process_value
      process_record m p r = process_value m p r.value
