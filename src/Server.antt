-- ===== src/Server.antt =====
-- src/tcp/server.rs: `BankServer`. One message of a connection is handled by `handle_request`, from
-- the lookup of the key to the response; the registry's connection, the shared protector and the
-- clock are arguments. `handle_connection` is the loop over the messages that arrive.
pub mod Handle
pub mod Login
pub mod Spent
pub mod Connection
pub mod Run
pub mod Accepts
pub mod System
pub mod Guarded
pub mod Invariant
use zkp_verifier.Common.{
  String, ◌<>◌, Bool, true, false, Option, none, some, List, [], ◌∷◌, Outcome, ok, err, panic,
  ◌>>=◌, expect, map_err, not, bytes_beq, if◌then◌else◌,
}
use zkp_verifier.Common.Int.{ℤ}
use zkp_verifier.Curve.{Curve}
use zkp_verifier.Database.{Rusqlite}
use zkp_verifier.Proof
use zkp_verifier.Proof.{ZkpError}
use zkp_verifier.Protocol.{AuthRequest, AuthResponse}
use zkp_verifier.Engine.{public_to_bytes, verify}
use zkp_verifier.Replay
use zkp_verifier.Replay.{ReplayError, ReplayProtector, check_and_record}
use zkp_verifier.Replay.Trace.{Call, run}
use zkp_verifier.Storage
use zkp_verifier.Storage.{StorageError, get_public_key}

abbrev pub respond : String → Bool → String → AuthResponse
respond user_id success message = record { user_id = user_id; success = success; message = message }

-- Step 4: what the outcome of `verify` is told as.
unfoldable pub verdict : String → Outcome ZkpError Bool → Outcome ZkpError AuthResponse
verdict user_id (ok true) =
    ok (respond user_id true ("Identity verified successfully for user '" <> user_id <> "'."))
verdict user_id (ok false) = ok (
    respond user_id false "Verification failed: Mathematical proof check did not match public key.")
verdict user_id (err e) =
    ok (respond user_id false ("Cryptographic verification error: " <> Proof.display e))
verdict user_id panic = panic

module _ (C : Curve) where
  unfoldable pub after_replay :
      C.Point
      → AuthRequest
      → Outcome ReplayError (Unit {0}) × ReplayProtector
      → Outcome ZkpError AuthResponse × ReplayProtector
  unfolding verdict
  after_replay pk request (ok _, p) = (verdict request.user_id (verify C pk request.proof), p)
  after_replay pk request (err e, p) =
      (ok (respond request.user_id false ("Security rejection: " <> Replay.display e)), p)
  after_replay pk request (panic, p) = (panic, p)

  unfoldable pub after_lookup :
      ReplayProtector
      → ℤ
      → AuthRequest
      → Outcome StorageError (Option C.Point)
      → Outcome ZkpError AuthResponse × ReplayProtector
  unfolding after_replay
  after_lookup p now request (ok none) = (
    ok (
        respond request.user_id false
          ("Authentication failed: User '" <> request.user_id <> "' is not registered with bank")),
    p,
  )
  after_lookup p now request (ok (some pk)) =
      if not (bytes_beq request.public_key (public_to_bytes C pk))
      then (
        ok (
            respond request.user_id false
              "Authentication failed: Public key does not match bank records"),
        p,
      )
      else after_replay pk request (check_and_record p now request.user_id request.proof)
  after_lookup p now request (err e) =
      (ok (respond request.user_id false ("Storage lookup error: " <> Storage.display e)), p)
  after_lookup p now request panic = (panic, p)

  module _ (S : Rusqlite) where
    unfoldable pub handle_request :
        S.Connection
        → ReplayProtector
        → ℤ
        → AuthRequest
        → Outcome ZkpError AuthResponse × ReplayProtector
    unfolding after_lookup
    handle_request conn p now request =
        after_lookup p now request (get_public_key S C conn request.user_id)

    -- What `framed.next()` gives a connection, with the clock and the registry at that moment, the
    -- calls that other tasks have made of the shared protector since the message before, and what
    -- `framed.send` will answer.
    pub record Arrival : Type 0 where
      pub now : ℤ
      pub conn : S.Connection
      pub others : List Call
      pub message : Outcome ZkpError AuthRequest
      pub sent : Outcome ZkpError (Unit {0})

    -- The responses that were handed to `send`, the protector, and how the task ended.
    pub record Served : Type 0 where
      pub responses : List AuthResponse
      pub protector : ReplayProtector
      pub result : Outcome ZkpError (Unit {0})

    abbrev pub stop : List AuthResponse → ReplayProtector → Outcome ZkpError (Unit {0}) → Served
    stop responses p result = record { responses = responses; protector = p; result = result }

    -- `framed.send(resp).await?`
    abbrev pub after_send :
        AuthResponse
        → Outcome ZkpError (Unit {0})
        → ReplayProtector
        → (ReplayProtector → Served)
        → Served
    after_send response (ok _) p continue =
        let rest = continue p in record rest { responses = response ∷ rest.responses }
    after_send response (err e) p continue = stop (response ∷ []) p (err e)
    after_send response panic p continue = stop (response ∷ []) p panic

    abbrev pub after_request :
        Outcome ZkpError AuthResponse × ReplayProtector
        → Outcome ZkpError (Unit {0})
        → (ReplayProtector → Served)
        → Served
    after_request (ok response, p) sent continue = after_send response sent p continue
    after_request (err e, p) sent continue = stop [] p (err e)
    after_request (panic, p) sent continue = stop [] p panic

    abbrev pub on_message :
        Arrival
        → Outcome ZkpError AuthRequest
        → ReplayProtector
        → (ReplayProtector → Served)
        → Served
    on_message a (ok request) p continue =
        after_request (handle_request a.conn p a.now request) a.sent continue
    on_message a (err e) p continue =
        stop (respond "unknown" false ("Malformed packet: " <> Proof.display e) ∷ []) p (err e)
    on_message a panic p continue = stop [] p panic

    unfoldable pub handle_connection : ReplayProtector → List Arrival → Served
    handle_connection p [] = stop [] p (ok tt)
    handle_connection p (a ∷ as') =
        on_message a a.message (run p a.others) (λ q. handle_connection q as')
