-- ===== src/Kafka/Worker/Served.antt =====
-- src/kafka/verifier.rs: every request on the topic is handled once, in its order.
use zkp_verifier.Common.{
  ℕ, ◌≤◌, ◌≡◌, refl, ap, ap₂, sym, length-append, ◌∙◌, true, false, List, [], ◌∷◌, ◌++◌, length,
  arith,
}
use mathlib.Core.List.{append-nil}
use zkp_verifier.Common.Int.{ℤ, pos, ◌+ℤ◌}
use zkp_verifier.Curve.{Curve}
use zkp_verifier.Database.{Rusqlite}
use zkp_verifier.Protocol.{KafkaAuthRequest, KafkaAuthResponse, Format}
use zkp_verifier.Replay.{ReplayProtector}
use zkp_verifier.Kafka.{Record}
use zkp_verifier.Kafka.Log.{number_from}
use zkp_verifier.Kafka.Prover.Scan.{same_offset}
use zkp_verifier.Kafka.Verifier.{process_record}
use zkp_verifier.Kafka.Worker.{
  running, Run, Fetched, Event, shutdown, fetched, fetch_failed, process_records, run,
}
use zkp_verifier.Kafka.Worker.Batches.{
  records_of, ending_of, finish, process_records-ext, after_record-ext, run-records_of,
}
use zkp_verifier.Kafka.Worker.Polls.{
  Poll, numbered, offset_after, after_event, polled, Polls, on_event, run_polls,
}
use zkp_verifier.Kafka.Worker.Follows.{polled-Covers, polled-running}

nothing_left : (done left log : List Record) → done ++ left ≡ log → length left ≡ 0 → done ≡ log
nothing_left done [] log whole none_left = sym (append-nil done) ∙ whole
nothing_left done (r ∷ left) log whole none_left = absurd (omega arith)

module _ (C : Curve) (S : Rusqlite) (json bincode : Format KafkaAuthRequest)
    (response_json : Format KafkaAuthResponse) where
  -- What follows the records starts behind the last of them.
  process_records-offset_after :
      (o : ℤ) (p : ReplayProtector) (fs : List (Fetched C S)) (k : ℤ → ReplayProtector → Run)
      → process_records C S json bincode response_json o p fs k
        ≡ process_records C S json bincode response_json o p fs (λ _ q. k (offset_after C S o fs) q)
  unfolding process_records offset_after
  process_records-offset_after o p [] k = refl
  process_records-offset_after o p (f ∷ fs) k =
      after_record-ext C S json bincode response_json (f.offset +ℤ pos 1)
        (process_record C S json bincode response_json f.moment p f.record_) _ _ _
        (λ q. process_records-offset_after (f.offset +ℤ pos 1) q fs k)

  abbrev rest_of : List (Poll C S) → ℤ → ReplayProtector → Run
  rest_of qs next p = run_polls C S json bincode response_json next p qs

  run_on : ℤ → ReplayProtector → Event C S → List (Poll C S) → Run
  run_on o p e qs = run C S json bincode response_json o p (e ∷ polled C S (after_event C S o e) qs)

  on_event-run :
      (o : ℤ) (p : ReplayProtector) (e : Event C S) (qs : List (Poll C S))
      → ((next : ℤ) (q : ReplayProtector)
          → rest_of qs next q ≡ run C S json bincode response_json next q (polled C S next qs))
      → on_event C S json bincode response_json o p e (rest_of qs) ≡ run_on o p e qs
  unfolding run run_on
  on_event-run o p (shutdown true) qs ih = refl
  on_event-run o p (shutdown false) qs ih = ih o p
  on_event-run o p (fetch_failed e) qs ih = ih o p
  on_event-run o p (fetched fs high_watermark) qs ih =
      process_records-offset_after o p fs (rest_of qs)
      ∙ process_records-ext C S json bincode response_json o p fs _ _
          (λ _ q. ih (offset_after C S o fs) q)
      ∙ sym (
          process_records-offset_after o p fs (λ next q.
            run C S json bincode response_json next q (polled C S (offset_after C S o fs) qs)))

  -- The loop is the run over the events that it polls.
  run_polls-polled :
      (o : ℤ) (p : ReplayProtector) (qs : List (Poll C S))
      → run_polls C S json bincode response_json o p qs
        ≡ run C S json bincode response_json o p (polled C S o qs)
  unfolding run_polls polled run run_on
  run_polls-polled o p [] = refl
  run_polls-polled o p (q ∷ qs) = on_event-run o p (q o) qs (λ next p'. run_polls-polled next p' qs)

  module _ (base : ℤ) (log : List Record) (n : ℕ) (qs : List (Poll C S))
      (on_log : Polls C S base log n qs) (enough : length log ≤ n) where
    pub run_polls-log :
        (p : ReplayProtector)
        → (fs : List (Fetched C S)) × (numbered C S fs ≡ number_from base log)
          × (run_polls C S json bincode response_json base p qs
              ≡ process_records C S json bincode response_json base p fs (finish C S running))
    run_polls-log p =
        let at_base = same_offset base in
        let (done, left, whole, numbers, end) =
          polled-Covers C S base log n qs [] log on_log refl in
        let nothing : length left ≡ 0 =
          ground (arith, end, length-append done left, ap length whole) in
        let all : done ≡ log = nothing_left done left log whole nothing in
        let stays : ending_of C S (polled C S base qs) ≡ running =
          ap (λ o. ending_of C S (polled C S o qs)) (sym at_base)
          ∙ polled-running C S base log n qs [] log on_log refl in
        (
          records_of C S (polled C S base qs),
          ap (λ o. numbered C S (records_of C S (polled C S o qs))) (sym at_base)
              ∙ numbers
              ∙ ap₂ number_from at_base all,
          run_polls-polled base p qs
              ∙ run-records_of C S json bincode response_json (polled C S base qs) base p
              ∙ ap
                  (λ e.
                    process_records C S json bincode response_json base p
                      (records_of C S (polled C S base qs)) (finish C S e))
                  stays,
        )
