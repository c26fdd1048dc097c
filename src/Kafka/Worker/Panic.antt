-- ===== src/Kafka/Worker/Panic.antt =====
-- src/kafka/verifier.rs: the worker at a request whose response is not 32 bytes long.
use zkp_verifier.Common.{
  ◌≡◌, refl, ◌≢◌, some, List, ◌∷◌, Outcome, ok, err, panic, Bytes, length, bytes_beq_iff,
}
use zkp_verifier.Common.Int.{ℤ}
use zkp_verifier.Curve.{Curve, IsGroup, IsEncoding}
use zkp_verifier.Database.{Rusqlite}
use zkp_verifier.Protocol.{KafkaAuthRequest, KafkaAuthResponse, Format}
use zkp_verifier.Engine.{public_to_bytes}
use zkp_verifier.Engine.Verify.{verify_panics}
use zkp_verifier.Replay.{ReplayError, ReplayProtector, check_and_record}
use zkp_verifier.Storage.{get_public_key}
use zkp_verifier.Kafka.Verifier.{
  verdict, after_replay, after_lookup, decide, process_record, process_request, read_request,
  after_decision,
}
use zkp_verifier.Kafka.Worker.{Fetched, fetched, Event, panicked, run, process_records}

module _ (S : Rusqlite) (C : Curve) (g : IsGroup C) (enc : IsEncoding C g) (req : KafkaAuthRequest)
    (pk : C.Point) {encoded : C.EncodedPoint} (key_matches : req.public_key ≡ public_to_bytes C pk)
    (point : C.encoded_from_bytes req.proof.r_point ≡ ok encoded)
    (odd : length req.proof.s_scalar ≢ 32) where
  after_replay-panics :
      (r : Outcome ReplayError (Unit {0}) × ReplayProtector)
      → r.0 ≡ ok tt
      → after_replay C pk req r ≡ (panic, r.1)
  unfolding after_replay verdict
  after_replay-panics (ok _, q) h = rw (verify_panics C g enc pk req.proof point odd) refl
  after_replay-panics (err e, q) h = cc
  after_replay-panics (panic, q) h = cc

  module _ (conn : S.Connection) (p : ReplayProtector) (now : ℤ)
      (registered : get_public_key S C conn req.user_id ≡ ok (some pk))
      (taken : (check_and_record p now req.user_id req.proof).0 ≡ ok tt) where
    decide-panics :
        decide C S conn p now req ≡ (panic, (check_and_record p now req.user_id req.proof).1)
    unfolding decide after_lookup
    decide-panics =
        rw (registered, (bytes_beq_iff req.public_key (public_to_bytes C pk)).1 key_matches)
          (after_replay-panics (check_and_record p now req.user_id req.proof) taken)

  module _ (json bincode : Format KafkaAuthRequest) (response_json : Format KafkaAuthResponse)
      (f : Fetched C S) (value : Bytes) (is_value : f.record_.value ≡ some value)
      (is_request : read_request C S json bincode response_json value ≡ ok req)
      (p : ReplayProtector)
      (registered : get_public_key S C f.moment.conn req.user_id ≡ ok (some pk))
      (taken : (check_and_record p f.moment.now req.user_id req.proof).0 ≡ ok tt) where
    process_record-panics :
        (process_record C S json bincode response_json f.moment p f.record_).result ≡ panic
    unfolding process_record process_request after_decision
    process_record-panics =
        rw (is_value, is_request, decide-panics f.moment.conn p f.moment.now registered taken) refl

    -- The worker's run ends by a panic at a record that reads as a request with the registered key,
    -- a proof that the protector takes, an R in the form of a point, and a response that is not 32
    -- bytes long, whatever records and events come after it.
    pub run-panics :
        (offset high_watermark : ℤ) (fs : List (Fetched C S)) (es : List (Event C S))
        → (run C S json bincode response_json offset p
            (fetched (f ∷ fs) high_watermark ∷ es)).ending
          ≡ panicked
    unfolding run process_records
    run-panics offset high_watermark fs es = rw process_record-panics refl
