-- ===== src/Client.antt =====
-- src/tcp/client.rs: `UserProverClient`. The draws of the random generator and the clock are arguments,
-- and so is the connection: what `framed.send` answers to a request, and what `framed.next` gives
-- after it.
pub mod Login
pub mod Request
pub mod Wire
pub mod Connect
use zkp_verifier.Common.{
  String, Bool, Option, none, some, Outcome, ok, err, ◌>>=◌, Bytes, if◌then◌else◌,
}
use zkp_verifier.Common.Int.{ℤ}
use zkp_verifier.Curve.{Curve}
use zkp_verifier.Proof.{ZkpError, serialization_error}
use zkp_verifier.Protocol.{AuthRequest, AuthResponse}
use zkp_verifier.Engine.{public_key, public_to_bytes, generate_proof, corrupt}

pub record Connection : Type 0 where
  pub send : AuthRequest → Outcome ZkpError (Unit {0})
  pub next : AuthRequest → Option (Outcome ZkpError AuthResponse)

abbrev pub read_response : Option (Outcome ZkpError AuthResponse) → Outcome ZkpError AuthResponse
read_response (some r) = r
read_response none =
    err (serialization_error "Connection closed by server before response was received")

unfoldable pub send_raw_request : Connection → AuthRequest → Outcome ZkpError AuthResponse
send_raw_request framed request = do _ ← framed.send request; read_response (framed.next request)

module _ (C : Curve) where
  pub record Draw : Type 0 where
    pub now : ℤ
    pub nonce : Bytes
    pub k : C.Scalar

  unfoldable pub auth_request : Draw → String → C.Scalar → Bool → Outcome ZkpError AuthRequest
  auth_request d user_id secret_key tamper = do
    let pk = public_key C secret_key
    proof ← generate_proof C secret_key pk d.now d.nonce d.k
    ok (record {
      user_id = user_id;
      public_key = public_to_bytes C pk;
      proof = if tamper then corrupt proof else proof;
    })

  unfoldable pub authenticate :
      Connection → Draw → String → C.Scalar → Bool → Outcome ZkpError AuthResponse
  unfolding auth_request send_raw_request
  authenticate framed d user_id secret_key tamper = do
    request ← auth_request d user_id secret_key tamper
    send_raw_request framed request
