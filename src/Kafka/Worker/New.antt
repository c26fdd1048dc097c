-- ===== src/Kafka/Worker/New.antt =====
-- src/kafka/verifier.rs: how a `KafkaVerifierWorker` is made. Its clients of the two topics are left
-- out of the record; whether they could be made is an argument.
use zkp_verifier.Common.{Outcome, ok, ◌>>=◌, expect}
use zkp_verifier.Database.{Rusqlite}
use zkp_verifier.Replay
use zkp_verifier.Replay.{ReplayProtector}
use zkp_verifier.Storage.{in_memory}
use zkp_verifier.Kafka.{KafkaError}

module _ (S : Rusqlite) where
  pub record KafkaVerifierWorker : Type 0 where
    pub registry : S.Connection
    pub replay_protector : ReplayProtector

  unfoldable pub new :
      Outcome KafkaError (Unit {0})
      → Outcome KafkaError (Unit {0})
      → Outcome KafkaError (Unit {0})
      → Outcome KafkaError KafkaVerifierWorker
  new client req_client res_client = do
    _ ← client
    _ ← req_client
    _ ← res_client
    registry ← expect (in_memory S)
    ok (record { registry = registry; replay_protector = Replay.default })

  unfoldable pub with_registry : KafkaVerifierWorker → S.Connection → KafkaVerifierWorker
  with_registry worker registry = record worker { registry = registry }

  unfoldable pub with_replay_protector : KafkaVerifierWorker → ReplayProtector → KafkaVerifierWorker
  with_replay_protector worker protector = record worker { replay_protector = protector }

  -- The accessors, whose `Arc::clone` shares what the worker has.
  unfoldable pub registry : KafkaVerifierWorker → S.Connection
  registry worker = worker.registry

  unfoldable pub replay_protector : KafkaVerifierWorker → ReplayProtector
  replay_protector worker = worker.replay_protector
