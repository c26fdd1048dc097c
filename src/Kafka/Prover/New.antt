-- ===== src/Kafka/Prover/New.antt =====
-- src/kafka/prover.rs: how a `KafkaProverClient` is made. What the crate gives for a broker, and for a
-- topic and a partition, are arguments.
use zkp_verifier.Common.{◌≡◌, ap, ◌∙◌, String, Outcome, ok, ◌>>=◌, >>=-eq-ok, ok_inj}
use zkp_verifier.Common.Int.{ℤ}
use zkp_verifier.Kafka.{KafkaError}

module _ (Client PartitionClient : Type 0) where
  pub record KafkaProverClient : Type 0 where
    pub req_client : PartitionClient
    pub res_client : PartitionClient

  unfoldable pub new :
      (String → Outcome KafkaError Client)
      → (Client → String → ℤ → Outcome KafkaError PartitionClient)
      → String
      → String
      → String
      → ℤ
      → Outcome KafkaError KafkaProverClient
  new build partition_client broker req_topic res_topic partition = do
    client ← build broker
    req_client ← partition_client client req_topic partition
    res_client ← partition_client client res_topic partition
    ok (record { req_client = req_client; res_client = res_client })

  -- A client that was made reads and writes the two topics of one partition.
  pub new-topics :
      (build : String → Outcome KafkaError Client)
      (partition_client : Client → String → ℤ → Outcome KafkaError PartitionClient)
      (broker req_topic res_topic : String) (partition : ℤ) (made : KafkaProverClient)
      → new build partition_client broker req_topic res_topic partition ≡ ok made
      → (client : Client) × (build broker ≡ ok client)
        × (partition_client client req_topic partition ≡ ok made.req_client)
        × (partition_client client res_topic partition ≡ ok made.res_client)
  unfolding new
  new-topics build partition_client broker req_topic res_topic partition made h =
      let (client, built, h1) = >>=-eq-ok (build broker) _ h in
      let (req, got_req, h2) = >>=-eq-ok (partition_client client req_topic partition) _ h1 in
      let (res, got_res, same) = >>=-eq-ok (partition_client client res_topic partition) _ h2 in
      (
        client,
        built,
        got_req ∙ ap (λ (c : KafkaProverClient). ok c.req_client) (ok_inj same),
        got_res ∙ ap (λ (c : KafkaProverClient). ok c.res_client) (ok_inj same),
      )
