-- ===== src/Kafka/Worker/Batches.antt =====
-- src/kafka/verifier.rs: the worker's run over fetches, against one pass over the records.
use zkp_verifier.Common.{
  ◌≡◌, refl, ap, sym, ◌∙◌, true, false, List, [], ◌∷◌, ◌++◌, Outcome, ok, err, panic,
}
use zkp_verifier.Common.Int.{ℤ, pos, ◌+ℤ◌}
use zkp_verifier.Curve.{Curve}
use zkp_verifier.Database.{Rusqlite}
use zkp_verifier.Protocol.{KafkaAuthRequest, KafkaAuthResponse, Format}
use zkp_verifier.Replay.{ReplayProtector}
use zkp_verifier.Kafka.{KafkaError}
use zkp_verifier.Kafka.Verifier.{Processed, process_record}
use zkp_verifier.Kafka.Worker.{
  Ending, stopped, running, Run, Fetched, Event, shutdown, fetched, fetch_failed, publish_before,
  after_record, process_records, run,
}

module _ (C : Curve) (S : Rusqlite) where
  -- The records that are fetched before the signal to stop, and whether it comes.
  unfoldable pub records_of : List (Event C S) → List (Fetched C S)
  records_of [] = []
  records_of (shutdown true ∷ es) = []
  records_of (shutdown false ∷ es) = records_of es
  records_of (fetched fs high_watermark ∷ es) = fs ++ records_of es
  records_of (fetch_failed e ∷ es) = records_of es

  unfoldable pub ending_of : List (Event C S) → Ending
  ending_of [] = running
  ending_of (shutdown true ∷ es) = stopped
  ending_of (shutdown false ∷ es) = ending_of es
  ending_of (fetched fs high_watermark ∷ es) = ending_of es
  ending_of (fetch_failed e ∷ es) = ending_of es

  abbrev pub finish : Ending → ℤ → ReplayProtector → Run
  finish ending offset p = record {
    offset = offset;
    protector = p;
    published = [];
    ending = ending;
  }

  module _ (json bincode : Format KafkaAuthRequest) (response_json : Format KafkaAuthResponse) where
    pub after_record-ext :
        (offset : ℤ) (r : Processed C S) (w : Outcome KafkaError (Unit {0}))
        (f g : ReplayProtector → Run)
        → ((q : ReplayProtector) → f q ≡ g q)
        → after_record C S json bincode response_json offset r w f
          ≡ after_record C S json bincode response_json offset r w g
    after_record-ext offset r (ok _) f g h =
        ap (publish_before C S json bincode response_json r.published) (h r.protector)
    after_record-ext offset r (err e) f g h =
        ap (publish_before C S json bincode response_json r.published) (h r.protector)
    after_record-ext offset r panic f g h = refl

    process_records-append :
        (offset : ℤ) (p : ReplayProtector) (xs ys : List (Fetched C S))
        (k : ℤ → ReplayProtector → Run)
        → process_records C S json bincode response_json offset p (xs ++ ys) k
          ≡ process_records C S json bincode response_json offset p xs
              (λ next q. process_records C S json bincode response_json next q ys k)
    unfolding process_records
    process_records-append offset p [] ys k = refl
    process_records-append offset p (x ∷ xs) ys k =
        after_record-ext (x.offset +ℤ pos 1)
          (process_record C S json bincode response_json x.moment p x.record_) _ _ _
          (λ q. process_records-append (x.offset +ℤ pos 1) q xs ys k)

    pub process_records-ext :
        (offset : ℤ) (p : ReplayProtector) (xs : List (Fetched C S))
        (k l : ℤ → ReplayProtector → Run)
        → ((next : ℤ) (q : ReplayProtector) → k next q ≡ l next q)
        → process_records C S json bincode response_json offset p xs k
          ≡ process_records C S json bincode response_json offset p xs l
    unfolding process_records
    process_records-ext offset p [] k l h = h offset p
    process_records-ext offset p (x ∷ xs) k l h =
        after_record-ext (x.offset +ℤ pos 1)
          (process_record C S json bincode response_json x.moment p x.record_) _ _ _
          (λ q. process_records-ext (x.offset +ℤ pos 1) q xs k l h)

    -- The worker's run over its events is one pass over the records that it fetches before the
    -- signal to stop, however they are cut into fetches and whatever failed fetches stand between,
    -- with the same offset, protector, published records and ending.
    pub run-records_of :
        (es : List (Event C S)) (offset : ℤ) (p : ReplayProtector)
        → run C S json bincode response_json offset p es
          ≡ process_records C S json bincode response_json offset p
              (records_of es)
              (finish (ending_of es))
    unfolding run records_of ending_of process_records
    run-records_of [] offset p = refl
    run-records_of (shutdown true ∷ es) offset p = refl
    run-records_of (shutdown false ∷ es) offset p = run-records_of es offset p
    run-records_of (fetch_failed e ∷ es) offset p = run-records_of es offset p
    run-records_of (fetched fs high_watermark ∷ es) offset p =
        process_records-ext offset p fs _ _ (λ next q. run-records_of es next q)
        ∙ sym (process_records-append offset p fs (records_of es) (finish (ending_of es)))
