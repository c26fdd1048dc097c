-- ===== src/Kafka.antt =====
-- src/kafka: the records of a topic, and what can go wrong in the worker and the client.
pub mod Verifier
pub mod Worker
pub mod Agree
pub mod Prover
pub mod Log
pub mod Login
pub mod Across
use zkp_verifier.Common.{String, Option, Bytes}
use zkp_verifier.Common.Int.{ℤ, pos}
use zkp_verifier.Proof.{ZkpError}

abbrev pub default_kafka_broker : String
default_kafka_broker = "127.0.0.1:9092"

abbrev pub request_topic : String
request_topic = "zkp-identity-requests"

abbrev pub response_topic : String
response_topic = "zkp-identity-responses"

-- A record of `rskafka`: its key is kept as the text whose bytes it is, and the headers, always
-- empty, are left out. The timestamp is in milliseconds.
pub record Record : Type 0 where
  pub key : Option String
  pub value : Option Bytes
  pub timestamp : ℤ

-- An `anyhow::Error`: one of the program's, or the Kafka client's, known by its text.
pub data KafkaError : Type 0 where
  zkp_error : ZkpError → KafkaError
  client_error : String → KafkaError

-- The `Result` of a call of the Kafka client that asks for an offset or for records; the client does
-- not panic in these calls.
pub data Reply {ℓ} (A : Type ℓ) : Type ℓ where
  brings : A → Reply A
  brings_error : String → Reply A
