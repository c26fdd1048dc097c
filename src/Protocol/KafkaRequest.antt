-- ===== src/Protocol/KafkaRequest.antt =====
-- src/protocol.rs: the functions of `KafkaAuthRequest`.
use zkp_verifier.Common.{String, Outcome, Bytes}
use zkp_verifier.Common.Int.{ℤ}
use zkp_verifier.Proof.{ZkpError, Proof}
use zkp_verifier.Protocol.{KafkaAuthRequest, Format, read_as, write_as}

unfoldable pub new : String → ℤ → String → Bytes → Proof → KafkaAuthRequest
new uuid millis user_id public_key proof = record {
  request_id = uuid;
  user_id = user_id;
  public_key = public_key;
  proof = proof;
  timestamp = millis;
}

unfoldable pub to_json_bytes : Format KafkaAuthRequest → KafkaAuthRequest → Outcome ZkpError Bytes
to_json_bytes json = write_as json "JSON serialization error: "

unfoldable pub from_json_bytes : Format KafkaAuthRequest → Bytes → Outcome ZkpError KafkaAuthRequest
from_json_bytes json = read_as json "JSON deserialization error: "

unfoldable pub to_bincode_bytes :
    Format KafkaAuthRequest → KafkaAuthRequest → Outcome ZkpError Bytes
to_bincode_bytes bincode = write_as bincode "Bincode serialization error: "

unfoldable pub from_bincode_bytes :
    Format KafkaAuthRequest → Bytes → Outcome ZkpError KafkaAuthRequest
from_bincode_bytes bincode = read_as bincode "Bincode deserialization error: "
