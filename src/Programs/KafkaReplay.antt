-- ===== src/Programs/KafkaReplay.antt =====
-- src/bin/kafka_prover.rs: the replay test, whose wait starts at the earliest record again.
use zkp_verifier.Common.{
  ℕ, ◌≡◌, ◌⊎◌, ap, ◌∙◌, inl, inr, String, true, none, some, List, [], ◌∷◌, ◌++◌, ok, Bytes,
}
use zkp_verifier.Common.Int.{ℤ}
use zkp_verifier.Protocol.{KafkaAuthRequest, KafkaAuthResponse, Format}
use zkp_verifier.Protocol.KafkaRequest
use zkp_verifier.Kafka.{Record, brings}
use zkp_verifier.Kafka.Log.{Rounds, or_else, first_answer}
use zkp_verifier.Kafka.Prover.Scan.{first_answer-append}
use zkp_verifier.Kafka.Prover.Finds.{wait_for_response-Outlook}
use zkp_verifier.Kafka.Prover.{wait_for_response}
use zkp_verifier.Programs.KafkaProver.{
  Broker, after_replay_client, after_replay_produce, resend, replay_test,
}

module _ (json : Format KafkaAuthRequest) (response_json : Format KafkaAuthResponse) (b : Broker)
    (user_id : String) (req : KafkaAuthRequest) where
  -- The record of the replay.
  abbrev again : Bytes → Record
  again payload = record { key = some user_id; value = some payload; timestamp = b.replay_stamp }

  replay_waits :
      (payload : Bytes)
      → KafkaRequest.to_json_bytes json req ≡ ok payload
      → b.replay_client ≡ ok tt
      → b.replay_produced ≡ ok tt
      → (replay_test json response_json b true user_id req).waits
        ≡ wait_for_response response_json req.request_id b.replay_earliest b.replay_rounds ∷ []
  unfolding replay_test resend
  replay_waits payload written client produced =
      ap (λ w. (resend json response_json b user_id req w).waits) written
      ∙ ap (λ c. (after_replay_client json response_json b (again payload) req c).waits) client
      ∙ ap (λ c. (after_replay_produce json response_json b (again payload) req c).waits) produced

  -- The replay test of `kafka_prover` never shows an answer to the replayed request: if the log had
  -- an answer to the request before, its wait gives that answer or none, whatever records have come
  -- since. The request is written, the second client and its `produce` succeed, and the rounds of
  -- the wait are on the log, from its earliest offset.
  pub replay_test_blind :
      (payload : Bytes) (base : ℤ) (log later : List Record) (resp : KafkaAuthResponse) (n : ℕ)
      → KafkaRequest.to_json_bytes json req ≡ ok payload
      → b.replay_client ≡ ok tt
      → b.replay_produced ≡ ok tt
      → b.replay_earliest ≡ brings base
      → Rounds base (log ++ later) n b.replay_rounds
      → first_answer response_json req.request_id log ≡ some resp
      → ((replay_test json response_json b true user_id req).waits ≡ some resp ∷ [])
        ⊎ ((replay_test json response_json b true user_id req).waits ≡ none ∷ [])
  replay_test_blind payload base log later resp n written client produced earliest on_log answered =
      let waits =
        replay_waits payload written client produced
        ∙ ap (λ e. wait_for_response response_json req.request_id e b.replay_rounds ∷ [])
            earliest in
      let first : first_answer response_json req.request_id (log ++ later) ≡ some resp =
        first_answer-append response_json req.request_id log later
        ∙ ap (λ x. or_else x (first_answer response_json req.request_id later)) answered in
      elim (wait_for_response-Outlook response_json req.request_id base (log ++ later) n
        b.replay_rounds on_log) [
          | inl found ↦ inl (waits ∙ ap (λ x. x ∷ []) (found ∙ first))
          | inr (nothing, few) ↦ inr (waits ∙ ap (λ x. x ∷ []) nothing)
        ]
