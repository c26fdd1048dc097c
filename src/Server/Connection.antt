-- ===== src/Server/Connection.antt =====
-- src/tcp/server.rs: the loop of `handle_connection`.
use zkp_verifier.Common.{
  ◌≡◌, refl, ap, ap₂, inl, inr, String, Option, none, some, List, [], ◌∷◌, map, Outcome, ok, err,
  panic, Bool, true, false, Bool-cases, bytes_beq,
}
use zkp_verifier.Common.Int.{ℤ}
use zkp_verifier.Curve.{Curve}
use zkp_verifier.Database.{Rusqlite}
use zkp_verifier.Proof.{ZkpError}
use zkp_verifier.Protocol.{AuthRequest, AuthResponse}
use zkp_verifier.Engine.{public_to_bytes, verify}
use zkp_verifier.Replay.{ReplayError, ReplayProtector, check_and_record}
use zkp_verifier.Replay.Trace.{run}
use zkp_verifier.Storage.{StorageError, get_public_key}
use zkp_verifier.Server.{
  verdict, after_replay, after_lookup, handle_request, Arrival, Served, after_request, on_message,
  handle_connection,
}

-- The user of a message that was decoded.
abbrev pub sender : Outcome ZkpError AuthRequest → Option String
sender (ok request) = some request.user_id
sender (err e) = none
sender panic = none

-- An outcome that, if it is a response, is for this user.
abbrev pub IsFor : String → Outcome ZkpError AuthResponse → Type 0
IsFor u (ok response) = response.user_id ≡ u
IsFor u (err e) = Unit
IsFor u panic = Unit

verdict-IsFor : (u : String) (r : Outcome ZkpError Bool) → IsFor u (verdict u r)
unfolding verdict
verdict-IsFor u (ok true) = refl
verdict-IsFor u (ok false) = refl
verdict-IsFor u (err e) = refl
verdict-IsFor u panic = tt

module _ (S : Rusqlite) (C : Curve) where
  after_lookup-IsFor :
      (p : ReplayProtector) (now : ℤ) (request : AuthRequest)
      (r : Outcome StorageError (Option C.Point))
      → IsFor request.user_id (after_lookup C p now request r).0
  unfolding after_lookup
  after_lookup-IsFor p now request (ok none) = refl
  after_lookup-IsFor p now request (err e) = refl
  after_lookup-IsFor p now request panic = tt
  after_lookup-IsFor p now request (ok (some pk)) =
      elim (Bool-cases (bytes_beq request.public_key (public_to_bytes C pk))) [
        | inl same ↦ rw same (replay (check_and_record p now request.user_id request.proof))
        | inr differ ↦ rw differ refl
      ]
    where
      replay :
          (r : Outcome ReplayError (Unit {0}) × ReplayProtector)
          → IsFor request.user_id (after_replay C pk request r).0
      replay (ok _, q) = verdict-IsFor request.user_id (verify C pk request.proof)
      replay (err e, q) = refl
      replay (panic, q) = tt

  abbrev recipients : List AuthResponse → List (Option String)
  recipients = map (λ r. some r.user_id)

  module _ (continue : ReplayProtector → Served C S) (rest : List (Option String))
      (ih : (q : ReplayProtector)
        → (continue q).result ≡ ok tt
        → recipients (continue q).responses ≡ rest) where
    after_request-answers :
        (u : String) (r : Outcome ZkpError AuthResponse × ReplayProtector)
        (sent : Outcome ZkpError (Unit {0}))
        → IsFor u r.0
        → (after_request C S r sent continue).result ≡ ok tt
        → recipients (after_request C S r sent continue).responses ≡ some u ∷ rest
    after_request-answers u (ok response, q) (ok _) f h = ap₂ ◌∷◌ (ap some f) (ih q h)
    after_request-answers u (ok response, q) (err e) f h = cc
    after_request-answers u (ok response, q) panic f h = cc
    after_request-answers u (err e, q) sent f h = cc
    after_request-answers u (panic, q) sent f h = cc

    on_message-answers :
        (a : Arrival C S) (m : Outcome ZkpError AuthRequest) (p : ReplayProtector)
        → (on_message C S a m p continue).result ≡ ok tt
        → recipients (on_message C S a m p continue).responses ≡ sender m ∷ rest
    unfolding handle_request
    on_message-answers a (ok request) p h =
        after_request-answers request.user_id (handle_request C S a.conn p a.now request) a.sent
          (after_lookup-IsFor p a.now request (get_public_key S C a.conn request.user_id)) h
    on_message-answers a (err e) p h = cc
    on_message-answers a panic p h = cc

  -- If a connection ends without an error, every message was a request, and the responses are one
  -- for each message, addressed to its user, in the order of the messages.
  pub handle_connection-answers :
      (arrivals : List (Arrival C S)) (p : ReplayProtector)
      → (handle_connection C S p arrivals).result ≡ ok tt
      → recipients (handle_connection C S p arrivals).responses
        ≡ map (λ (a : Arrival C S). sender a.message) arrivals
  unfolding handle_connection
  handle_connection-answers [] p h = refl
  handle_connection-answers (a ∷ arrivals) p h =
      on_message-answers (λ q. handle_connection C S q arrivals) _
        (λ q. handle_connection-answers arrivals q) a a.message (run p a.others) h
