-- ===== src/Programs/KafkaProver.antt =====
-- src/bin/kafka_prover.rs: `main` behind its options.
use zkp_verifier.Common.{
  String, ◌<>◌, Bool, Option, none, some, List, [], ◌∷◌, ◌++◌, Outcome, ok, err, panic, Bytes,
  if◌then◌else◌,
}
use zkp_verifier.Common.Int.{ℤ}
use zkp_verifier.Curve.{Curve}
use zkp_verifier.Database.{Rusqlite}
use zkp_verifier.FileSystem.{FileSystem}
use zkp_verifier.Proof.{ZkpError}
use zkp_verifier.Protocol.{KafkaAuthRequest, KafkaAuthResponse, Format}
use zkp_verifier.Protocol.KafkaRequest
use zkp_verifier.Kafka.{Record, KafkaError, client_error, Reply}
use zkp_verifier.Kafka.Prover.{Draw, Fetch, submit_verification, wait_for_response}
use zkp_verifier.Kafka.Worker.{opt_list}
use zkp_verifier.Cli.Clients.{KafkaProverOptions}
use zkp_verifier.Programs.{MainError, zkp_failed, kafka_failed, Session, prepare_key}

-- What Kafka gives: the construction of the clients, the earliest offset and the fetches of the first
-- wait, and for the replay the clock, the second client, its `produce`, and the second wait.
pub record Broker : Type 0 where
  pub connected : Outcome KafkaError (Unit {0})
  pub earliest : Reply ℤ
  pub rounds : List Fetch
  pub replay_stamp : ℤ
  pub replay_client : Outcome KafkaError (Unit {0})
  pub replay_produced : Outcome String (Unit {0})
  pub replay_earliest : Reply ℤ
  pub replay_rounds : List Fetch

-- The records that were handed to `produce`, what the waits gave, and how the program ends.
pub record Exchanged : Type 0 where
  pub produced : List Record
  pub waits : List (Option KafkaAuthResponse)
  pub result : Outcome MainError (Unit {0})

abbrev pub exchanged :
    List Record → List (Option KafkaAuthResponse) → Outcome MainError (Unit {0}) → Exchanged
exchanged produced waits result = record { produced = produced; waits = waits; result = result }

module _ (json : Format KafkaAuthRequest) (response_json : Format KafkaAuthResponse)
    (b : Broker) where
  abbrev pub after_replay_produce :
      Record → KafkaAuthRequest → Outcome String (Unit {0}) → Exchanged
  after_replay_produce r req (ok _) =
      exchanged (r ∷ [])
        (wait_for_response response_json req.request_id b.replay_earliest b.replay_rounds ∷ [])
        (ok tt)
  after_replay_produce r req (err e) = exchanged (r ∷ []) [] (err (kafka_failed (client_error e)))
  after_replay_produce r req panic = exchanged (r ∷ []) [] panic

  abbrev pub after_replay_client :
      Record → KafkaAuthRequest → Outcome KafkaError (Unit {0}) → Exchanged
  after_replay_client r req (ok _) = after_replay_produce r req b.replay_produced
  after_replay_client r req (err e) = exchanged [] [] (err (kafka_failed e))
  after_replay_client r req panic = exchanged [] [] panic

  -- `req.to_json_bytes()?`, the record with the same key, and a client of its own.
  unfoldable pub resend : String → KafkaAuthRequest → Outcome ZkpError Bytes → Exchanged
  resend user_id req (ok payload) =
      after_replay_client
        (record { key = some user_id; value = some payload; timestamp = b.replay_stamp }) req
        b.replay_client
  resend user_id req (err e) = exchanged [] [] (err (zkp_failed e))
  resend user_id req panic = exchanged [] [] panic

  unfoldable pub replay_test : Bool → String → KafkaAuthRequest → Exchanged
  unfolding resend
  replay_test replay user_id req =
      if replay
      then resend user_id req (KafkaRequest.to_json_bytes json req)
      else exchanged [] [] (ok tt)

  unfoldable pub after_submit :
      Bool → String → Option Record × Outcome KafkaError KafkaAuthRequest → Exchanged
  unfolding replay_test
  after_submit replay user_id (r, ok req) =
      let answer = wait_for_response response_json req.request_id b.earliest b.rounds in
      let rest = replay_test replay user_id req in
      exchanged (opt_list r ++ rest.produced) (answer ∷ rest.waits) rest.result
  after_submit replay user_id (r, err e) = exchanged (opt_list r) [] (err (kafka_failed e))
  after_submit replay user_id (r, panic) = exchanged (opt_list r) [] panic

  module _ (C : Curve) where
    abbrev pub prover_user : KafkaProverOptions → String → String
    prover_user o uuid = if o.unregistered then "unregistered_" <> uuid else o.user_id

    abbrev pub after_key :
        KafkaProverOptions → Draw C → String → Outcome MainError C.Scalar → Exchanged
    after_key o d user_id (ok secret_key) =
        after_submit o.replay user_id (submit_verification C json d user_id secret_key o.tamper)
    after_key o d user_id (err e) = exchanged [] [] (err e)
    after_key o d user_id panic = exchanged [] [] panic

    module _ (F : FileSystem) (S : Rusqlite) where
      -- The disk, the bank's database if it was opened, and the exchange.
      abbrev pub after_client :
          KafkaProverOptions
          → Session F C S
          → Draw C
          → Outcome KafkaError (Unit {0})
          → (F.Disk × Option S.Connection) × Exchanged
      after_client o s d (ok _) =
          let user_id = prover_user o s.uuid in
          let prepared = prepare_key F C S s user_id o.unregistered in
          ((prepared.disk, prepared.bank), after_key o d user_id prepared.key)
      after_client o s d (err e) = ((s.disk, none), exchanged [] [] (err (kafka_failed e)))
      after_client o s d panic = ((s.disk, none), exchanged [] [] panic)

      unfoldable pub kafka_prover :
          KafkaProverOptions → Session F C S → Draw C → (F.Disk × Option S.Connection) × Exchanged
      unfolding after_submit
      kafka_prover o s d = after_client o s d b.connected
