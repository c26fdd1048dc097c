-- ===== src/Kafka/Across.antt =====
-- src/tcp/server.rs and src/kafka/verifier.rs: each process has a protector of its own, in its memory.
use zkp_verifier.Common.{◌≡◌, refl, ◌∙◌, true, some, ok}
use zkp_verifier.Common.Int.{ℤ, IsI64}
use zkp_verifier.HashMap
use zkp_verifier.Curve.{Curve}
use zkp_verifier.Database.{Rusqlite}
use zkp_verifier.Protocol.{KafkaAuthRequest}
use zkp_verifier.Replay.{ReplayProtector, new, check_and_record}
use zkp_verifier.Replay.Window.{IsSeconds, InWindow}
use zkp_verifier.Replay.Table.{check_and_record-ok_iff}
use zkp_verifier.Server.{handle_request}
use zkp_verifier.Server.Handle.{Admits, Authentic, handle_request-Admits_iff}
use zkp_verifier.Kafka.Verifier.{decide}
use zkp_verifier.Kafka.Agree.{kafka_success, to_auth_request, decide-handle_request}
use zkp_verifier.Kafka.Verifier.Publish.{Admits-of_tcp_success}

module _ (S : Rusqlite) (C : Curve) (conn : S.Connection) (p : ReplayProtector) (now : ℤ)
    (req : KafkaAuthRequest) (d later : ℤ) (hd : IsSeconds d) (hl : IsSeconds later)
    (ht : IsI64 req.proof.timestamp) (window : InWindow d later req.proof.timestamp) where
  new_takes : (check_and_record (new d) later req.user_id req.proof).0 ≡ ok tt
  unfolding new HashMap.get
  new_takes =
      (check_and_record-ok_iff (new d) (record { distinct = tt; drift = hd }) later hl req.user_id
          req.proof ht).1
        (window, refl)

  -- A proof that the TCP server, with any protector and at any clock, has answered with success is
  -- answered with success again by a Kafka worker that was just started, and so has a new
  -- protector, on the same database, if the worker's clock is still in the window around the
  -- proof's timestamp. The worker's drift and clock are from 0 to below 2 ^ 62, and the timestamp
  -- is an i64.
  pub replayed_across :
      Admits (handle_request C S conn p now (to_auth_request req)).0
      → kafka_success (decide C S conn (new d) later req).0 ≡ some true
  replayed_across admitted =
      let a = (handle_request-Admits_iff S C conn p now (to_auth_request req)).0 admitted in
      let b : Authentic S C conn (new d) later (to_auth_request req) = record {
        pk = a.pk;
        registered = a.registered;
        key_matches = a.key_matches;
        taken = new_takes;
        proven = a.proven;
      } in
      (decide-handle_request S C conn (new d) later req).0
      ∙ (Admits-of_tcp_success (handle_request C S conn (new d) later (to_auth_request req)).0).1
          ((handle_request-Admits_iff S C conn (new d) later (to_auth_request req)).1 b)
