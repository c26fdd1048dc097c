-- ===== src/Programs/Servers.antt =====
-- src/bin/bank_server.rs and src/bin/kafka_verifier.rs: `main` behind its options.
use zkp_verifier.Common.{String, List, Outcome, ok, ◌>>=◌, map_err}
use zkp_verifier.Common.Int.{ℤ}
use zkp_verifier.Curve.{Curve}
use zkp_verifier.Database.{Rusqlite}
use zkp_verifier.Protocol.{KafkaAuthRequest, KafkaAuthResponse, Format}
use zkp_verifier.Storage.{open_path, count}
use zkp_verifier.Server.Run
use zkp_verifier.Server.Run.{BankServer, Select, Spawned, bind}
use zkp_verifier.Kafka.{KafkaError, Reply}
use zkp_verifier.Kafka.Worker
use zkp_verifier.Kafka.Worker.{Event, first_offset}
use zkp_verifier.Kafka.Worker.New
use zkp_verifier.Cli.Servers.{BankServerOptions, KafkaVerifierOptions}
use zkp_verifier.Programs.{MainError, storage_failed, io_failed, kafka_failed}

module _ (S : Rusqlite) where
  module _ (T : Type 0) where
    -- The count is printed.
    unfoldable pub bank_server :
        BankServerOptions
        → Outcome String (Unit {0})
        → Outcome String String
        → List (Select T)
        → Outcome MainError (Spawned S T)
    bank_server o listener addr events = do
      registry ← map_err storage_failed (open_path S o.db_path)
      _ ← map_err storage_failed (count S registry)
      server ← map_err io_failed (bind S listener addr)
      ok (Run.run S T (Run.with_registry S server registry) events)

  module _ (C : Curve) (json bincode : Format KafkaAuthRequest)
      (response_json : Format KafkaAuthResponse) where
    unfoldable pub kafka_verifier :
        KafkaVerifierOptions
        → Outcome KafkaError (Unit {0})
        → Outcome KafkaError (Unit {0})
        → Outcome KafkaError (Unit {0})
        → Reply ℤ
        → List (Event C S)
        → Outcome MainError Worker.Run
    kafka_verifier o client req_client res_client latest events = do
      registry ← map_err storage_failed (open_path S o.db_path)
      _ ← map_err storage_failed (count S registry)
      worker ← map_err kafka_failed (New.new S client req_client res_client)
      let worker' = New.with_registry S worker registry
      ok (
          Worker.run C S json bincode response_json (first_offset latest) worker'.replay_protector
            events)
