-- ===== src/Kafka/Agree.antt =====
-- src/kafka/verifier.rs against src/tcp/server.rs: the decisions of the two transports.
use zkp_verifier.Common.{
  ◌≡◌, refl, String, Bool, true, false, Option, none, some, Outcome, ok, err, panic, Bool-cases,
  inl, inr, bytes_beq,
}
use zkp_verifier.Common.Int.{ℤ}
use zkp_verifier.Curve.{Curve}
use zkp_verifier.Database.{Rusqlite}
use zkp_verifier.Proof.{ZkpError}
use zkp_verifier.Protocol.{AuthRequest, AuthResponse, KafkaAuthRequest}
use zkp_verifier.Engine.{public_to_bytes, verify}
use zkp_verifier.Replay.{ReplayError, ReplayProtector, check_and_record}
use zkp_verifier.Storage.{StorageError, get_public_key}
use zkp_verifier.Server
use zkp_verifier.Kafka.{KafkaError}
use zkp_verifier.Kafka.Verifier
use zkp_verifier.Kafka.Verifier.{Decision, decide}

-- Whether the user is let in; `none` if there is no answer.
abbrev pub kafka_success : Outcome KafkaError Decision → Option Bool
kafka_success (ok d) = some d.0
kafka_success _ = none

abbrev pub tcp_success : Outcome ZkpError AuthResponse → Option Bool
tcp_success (ok r) = some r.success
tcp_success _ = none

abbrev pub to_auth_request : KafkaAuthRequest → AuthRequest
to_auth_request req = record {
  user_id = req.user_id;
  public_key = req.public_key;
  proof = req.proof;
}

verdicts :
    (u : String) (r : Outcome ZkpError Bool)
    → kafka_success (Verifier.verdict u r) ≡ tcp_success (Server.verdict u r)
unfolding Verifier.verdict Server.verdict
verdicts u (ok true) = refl
verdicts u (ok false) = refl
verdicts u (err e) = refl
verdicts u panic = refl

-- The answer and the protector, of a decision by either transport.
abbrev pub Agree :
    Outcome KafkaError Decision × ReplayProtector
    → Outcome ZkpError AuthResponse × ReplayProtector
    → Type 0
Agree k t = (kafka_success k.0 ≡ tcp_success t.0) × (k.1 ≡ t.1)

module _ (S : Rusqlite) (C : Curve) (conn : S.Connection) (p : ReplayProtector) (now : ℤ)
    (req : KafkaAuthRequest) where
  replays :
      (pk : C.Point) (r : Outcome ReplayError (Unit {0}) × ReplayProtector)
      → Agree (Verifier.after_replay C pk req r) (Server.after_replay C pk (to_auth_request req) r)
  unfolding Verifier.after_replay Server.after_replay
  replays pk (ok _, q) = (verdicts req.user_id (verify C pk req.proof), refl)
  replays pk (err e, q) = (refl, refl)
  replays pk (panic, q) = (refl, refl)

  lookups :
      (r : Outcome StorageError (Option C.Point))
      → Agree
          (Verifier.after_lookup C p now req r)
          (Server.after_lookup C p now (to_auth_request req) r)
  unfolding Verifier.after_lookup Server.after_lookup
  lookups (ok none) = (refl, refl)
  lookups (err e) = (refl, refl)
  lookups panic = (refl, refl)
  lookups (ok (some pk)) = elim (Bool-cases (bytes_beq req.public_key (public_to_bytes C pk))) [
    | inl same ↦ rw same (replays pk (check_and_record p now req.user_id req.proof))
    | inr differ ↦ rw differ (refl, refl)
  ]

  -- For the same registry, protector, clock and request, the Kafka worker and the TCP server reach
  -- the same decision on success, or both reach none, and leave the same protector.
  pub decide-handle_request :
      Agree (decide C S conn p now req) (Server.handle_request C S conn p now (to_auth_request req))
  unfolding decide Server.handle_request
  decide-handle_request = lookups (get_public_key S C conn req.user_id)
