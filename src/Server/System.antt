-- ===== src/Server/System.antt =====
-- src/tcp/server.rs: the tasks of the connections, the registry and the clock as one system. Any task
-- can handle its next request at any time; the clock does not run backwards, and a request's call of
-- the protector is one step (Replay/Race.antt has the steps inside it).
use zkp_verifier.Common.{String, List, ◌∷◌, Outcome, ok, err, panic, if◌then◌else◌}
use zkp_verifier.Common.Int.{ℤ, ◌≤ℤ◌, IsI64}
use zkp_verifier.Curve.{Curve}
use zkp_verifier.Database.{Rusqlite}
use zkp_verifier.Proof.{ZkpError, Proof}
use zkp_verifier.Protocol.{AuthRequest, AuthResponse}
use zkp_verifier.Replay.{ReplayProtector}
use zkp_verifier.Replay.Window.{IsSeconds}
use zkp_verifier.Server.{handle_request}

-- The protector, the clock, and the users that were let in, each with the proof, the last one first.
pub record Bank : Type 0 where
  pub protector : ReplayProtector
  pub clock : ℤ
  pub admitted : List (String × Proof)

-- The log after an answer.
abbrev pub log_answer :
    AuthRequest → Outcome ZkpError AuthResponse → List (String × Proof) → List (String × Proof)
log_answer request (ok response) log =
    if response.success then (request.user_id, request.proof) ∷ log else log
log_answer request (err e) log = log
log_answer request panic log = log

module _ (S : Rusqlite) (C : Curve) where
  unfoldable pub serve_request : S.Connection → AuthRequest → Bank → Bank
  serve_request conn request b =
      let (response, protector) = handle_request C S conn b.protector b.clock request in
      record {
        protector = protector;
        clock = b.clock;
        admitted = log_answer request response b.admitted;
      }

  -- The clock goes on, or a task handles a request, whose timestamp is an i64, with the registry as it
  -- is then.
  pub data Step : Bank → Bank → Type 0 where
    tick : (b : Bank) (now : ℤ) → b.clock ≤ℤ now → IsSeconds now → Step b (record b { clock = now })
    serve :
        (b : Bank) (conn : S.Connection) (request : AuthRequest)
        → IsI64 request.proof.timestamp
        → Step b (serve_request conn request b)

  pub data Reaches (start : Bank) : Bank → Type 0 where
    here : Reaches start start
    next : {b c : Bank} → Reaches start b → Step b c → Reaches start c
