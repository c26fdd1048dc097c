-- ===== src/Protocol/KafkaResponse.antt =====
-- src/protocol.rs: the functions of `KafkaAuthResponse`.
use zkp_verifier.Common.{String, Bool, Outcome, Bytes}
use zkp_verifier.Common.Int.{ℤ}
use zkp_verifier.Proof.{ZkpError}
use zkp_verifier.Protocol.{KafkaAuthResponse, Format, read_as, write_as}

unfoldable pub new : ℤ → String → String → Bool → String → KafkaAuthResponse
new millis request_id user_id success message = record {
  request_id = request_id;
  user_id = user_id;
  success = success;
  message = message;
  timestamp = millis;
}

unfoldable pub to_json_bytes : Format KafkaAuthResponse → KafkaAuthResponse → Outcome ZkpError Bytes
to_json_bytes json = write_as json "JSON serialization error: "

unfoldable pub from_json_bytes :
    Format KafkaAuthResponse → Bytes → Outcome ZkpError KafkaAuthResponse
from_json_bytes json = read_as json "JSON deserialization error: "
