-- ===== src/Kafka/Worker/Polls.antt =====
-- src/kafka/verifier.rs: the worker's loop with a fetch at its offset in each round, and the topic of
-- the requests, a log of records with consecutive offsets.
use zkp_verifier.Common.{
  ℕ, zero, suc, ◌<◌, ◌≡◌, ◌⊎◌, true, false, String, List, [], ◌∷◌, ◌++◌, map, length,
}
use zkp_verifier.Common.Int.{ℤ, pos, ◌+ℤ◌}
use zkp_verifier.Curve.{Curve}
use zkp_verifier.Database.{Rusqlite}
use zkp_verifier.Protocol.{KafkaAuthRequest, KafkaAuthResponse, Format}
use zkp_verifier.Replay.{ReplayProtector}
use zkp_verifier.Kafka.{Record}
use zkp_verifier.Kafka.Log.{number_from}
use zkp_verifier.Kafka.Worker.{
  stopped, running, Run, Fetched, Event, shutdown, fetched, fetch_failed, process_records,
}
use zkp_verifier.Kafka.Worker.Batches.{finish}

module _ (C : Curve) (S : Rusqlite) where
  -- What the `select!` meets, if the worker fetches at this offset.
  abbrev pub Poll : Type 0
  Poll = ℤ → Event C S

  abbrev pub numbered : List (Fetched C S) → List (ℤ × Record)
  numbered = map (λ (f : Fetched C S). (f.offset, f.record_))

  -- `offset = record_and_offset.offset + 1` in the loop over the records.
  unfoldable pub offset_after : ℤ → List (Fetched C S) → ℤ
  offset_after o [] = o
  offset_after o (f ∷ fs) = offset_after (f.offset +ℤ pos 1) fs

  abbrev pub after_event : ℤ → Event C S → ℤ
  after_event o (fetched fs high_watermark) = offset_after o fs
  after_event o (shutdown b) = o
  after_event o (fetch_failed e) = o

  -- The events of a worker that fetches at its offset.
  unfoldable pub polled : ℤ → List Poll → List (Event C S)
  polled o [] = []
  polled o (q ∷ qs) = q o ∷ polled (after_event o (q o)) qs

  module _ (base : ℤ) (log : List Record) (q : Poll) where
    -- A fetch behind the records `before` gives the first of those that follow.
    abbrev pub Gives : List Record → List Record → Type 0
    Gives before given =
        (fs : List (Fetched C S)) × (high_watermark : ℤ) × (q (base +ℤ pos (length before))
          ≡ fetched fs high_watermark)
        × (numbered fs ≡ number_from (base +ℤ pos (length before)) given)

    -- It fails, or the shutdown channel changes and does not tell to stop.
    abbrev pub BringsNothing : List Record → Type 0
    BringsNothing before =
        ((e : String) × (q (base +ℤ pos (length before)) ≡ fetch_failed e))
        ⊎ (q (base +ℤ pos (length before)) ≡ shutdown false)

    abbrev pub Serves : Type 0
    Serves =
        (before after : List Record)
        → before ++ after ≡ log
        → BringsNothing before
          ⊎ ((given rest : List Record) × (given ++ rest ≡ after) × Gives before given)

    -- It gives a record if there is one.
    abbrev pub Advances : Type 0
    Advances =
        (before after : List Record)
        → before ++ after ≡ log
        → (given rest : List Record) × (given ++ rest ≡ after)
          × Gives before given
          × ((length after ≡ 0) ⊎ (0 < length given))

  -- The rounds of the worker's loop on the log, of which so many advance.
  pub data Polls (base : ℤ) (log : List Record) : ℕ → List Poll → Type 0 where
    over : Polls base log zero []
    served :
        {n : ℕ} {q : Poll} {qs : List Poll}
        → Advances base log q
        → Polls base log n qs
        → Polls base log (suc n) (q ∷ qs)
    idle :
        {n : ℕ} {q : Poll} {qs : List Poll}
        → Serves base log q
        → Polls base log n qs
        → Polls base log n (q ∷ qs)

  module _ (json bincode : Format KafkaAuthRequest) (response_json : Format KafkaAuthResponse) where
    abbrev pub on_event : ℤ → ReplayProtector → Event C S → (ℤ → ReplayProtector → Run) → Run
    on_event offset p (shutdown true) continue = finish C S stopped offset p
    on_event offset p (shutdown false) continue = continue offset p
    on_event offset p (fetched fs high_watermark) continue =
        process_records C S json bincode response_json offset p fs continue
    on_event offset p (fetch_failed e) continue = continue offset p

    -- The loop of `run`.
    unfoldable pub run_polls : ℤ → ReplayProtector → List Poll → Run
    run_polls offset p [] = finish C S running offset p
    run_polls offset p (q ∷ qs) = on_event offset p (q offset) (λ next p'. run_polls next p' qs)
