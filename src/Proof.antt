-- ===== src/Proof.antt =====
-- src/zkp_core_engine.rs: the error type, with the texts of its `#[error]` attributes, and the
-- proof that travels from the prover to the verifier. A byte is a number, and an i64 an integer.
use zkp_verifier.Common.{String, ◌<>◌, Bytes}
use zkp_verifier.Common.Int.{ℤ}

-- An `std::io::Error` is known by its text.
pub data ZkpError : Type 0 where
  math_error : ZkpError
  serialization_error : String → ZkpError
  invalid_proof : ZkpError
  io_error : String → ZkpError

unfoldable pub display : ZkpError → String
display math_error = "Mathematical inconsistency during proof generation."
display (serialization_error s) = "Serialization failed: " <> s
display invalid_proof = "Verification failed: Invalid proof."
display (io_error s) = "Network/IO error: " <> s

pub record Proof : Type 0 where
  pub r_point : Bytes
  pub s_scalar : Bytes
  pub timestamp : ℤ
  pub nonce : Bytes
