-- ===== src/Protocol.antt =====
-- src/protocol.rs, and the wire conversions of `Proof` in src/zkp_core_engine.rs. The crates
-- `bincode` and `serde_json` are parameters: a format of a type writes and reads its values, with
-- the text of the error. A fresh UUID and the clock in milliseconds are arguments.
pub mod KafkaRequest
pub mod KafkaResponse
use zkp_verifier.Common.{String, ◌<>◌, Bool, Outcome, ok, err, panic, map_err, expect, Bytes}
use zkp_verifier.Common.Int.{ℤ}
use zkp_verifier.Proof.{ZkpError, serialization_error, Proof}

pub record AuthRequest : Type 0 where
  pub user_id : String
  pub public_key : Bytes
  pub proof : Proof

pub record AuthResponse : Type 0 where
  pub user_id : String
  pub success : Bool
  pub message : String

pub record KafkaAuthRequest : Type 0 where
  pub request_id : String
  pub user_id : String
  pub public_key : Bytes
  pub proof : Proof
  pub timestamp : ℤ

pub record KafkaAuthResponse : Type 0 where
  pub request_id : String
  pub user_id : String
  pub success : Bool
  pub message : String
  pub timestamp : ℤ

pub record Format (A : Type 0) : Type 0 where
  pub serialize : A → Outcome String Bytes
  pub deserialize : Bytes → Outcome String A

-- The conversions that every message has: reading with an error's prefix, writing with a prefix,
-- and writing where a failure is a panic.
module _ {A : Type 0} (format : Format A) where
  abbrev pub read_as : String → Bytes → Outcome ZkpError A
  read_as prefix bytes = map_err (λ e. serialization_error (prefix <> e)) (format.deserialize bytes)

  abbrev pub write_as : String → A → Outcome ZkpError Bytes
  write_as prefix a = map_err (λ e. serialization_error (prefix <> e)) (format.serialize a)

  abbrev pub write_or_panic : A → Outcome ZkpError Bytes
  write_or_panic a = expect (format.serialize a)

unfoldable pub proof_try_from : Format Proof → Bytes → Outcome ZkpError Proof
proof_try_from bincode = read_as bincode "Failed to deserialize Proof: "

unfoldable pub proof_into_vec : Format Proof → Proof → Outcome ZkpError Bytes
proof_into_vec bincode = write_or_panic bincode

unfoldable pub auth_request_try_from : Format AuthRequest → Bytes → Outcome ZkpError AuthRequest
auth_request_try_from bincode = read_as bincode "Failed to deserialize AuthRequest: "

unfoldable pub auth_request_into_vec : Format AuthRequest → AuthRequest → Outcome ZkpError Bytes
auth_request_into_vec bincode = write_or_panic bincode

unfoldable pub auth_response_try_from : Format AuthResponse → Bytes → Outcome ZkpError AuthResponse
auth_response_try_from bincode = read_as bincode "Failed to deserialize AuthResponse: "

unfoldable pub auth_response_into_vec : Format AuthResponse → AuthResponse → Outcome ZkpError Bytes
auth_response_into_vec bincode = write_or_panic bincode
