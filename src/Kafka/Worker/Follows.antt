-- ===== src/Kafka/Worker/Follows.antt =====
-- src/kafka/verifier.rs: the worker's run on a log of requests, from which it fetches at its offset.
use zkp_verifier.Common.{
  ℕ, suc, ◌+◌, ◌≤◌, ◌≡◌, refl, ap, ap₂, sym, subst, ◌∙◌, ◌⊎◌, inl, inr, List, [], ◌∷◌, ◌++◌, length,
  length-append, arith,
}
use mathlib.Core.List.{append_assoc, map-append}
use zkp_verifier.Common.Int.{ℤ, pos, ◌+ℤ◌}
use zkp_verifier.Curve.{Curve}
use zkp_verifier.Database.{Rusqlite}
use zkp_verifier.Kafka.{Record}
use zkp_verifier.Kafka.Log.{number_from}
use zkp_verifier.Kafka.Prover.Scan.{far_offset, same_offset}
use zkp_verifier.Kafka.Worker.{running, Fetched, fetched}
use zkp_verifier.Kafka.Worker.Polls.{
  Poll, numbered, offset_after, polled, Gives, BringsNothing, Polls, over, served, idle,
}
use zkp_verifier.Kafka.Worker.Batches.{records_of, ending_of}

number_from-append :
    (o : ℤ) (rs ss : List Record)
    → number_from o (rs ++ ss) ≡ number_from o rs ++ number_from (o +ℤ pos (length rs)) ss
unfolding number_from
number_from-append o [] ss = ap (λ q. number_from q ss) (sym (same_offset o))
number_from-append o (r ∷ rs) ss = ap (◌∷◌ (o, r)) (
    number_from-append (o +ℤ pos 1) rs ss
    ∙ ap (λ q. number_from (o +ℤ pos 1) rs ++ number_from q ss)
        (far_offset o 1 (length rs) ∙ ap (λ (n : ℕ). o +ℤ pos n) (omega arith)))

module _ (C : Curve) (S : Rusqlite) where
  offset_after-number_from :
      (o : ℤ) (fs : List (Fetched C S)) (rs : List Record)
      → numbered C S fs ≡ number_from o rs
      → offset_after C S o fs ≡ o +ℤ pos (length rs)
  unfolding offset_after number_from
  offset_after-number_from o [] [] h = sym (same_offset o)
  offset_after-number_from o [] (r ∷ rs) h = cc
  offset_after-number_from o (f ∷ fs) [] h = cc
  offset_after-number_from o (f ∷ fs) (r ∷ rs) h =
      let first : ◌≡◌ {A = ℤ × Record} (f.offset, f.record_) (o, r) = cc in
      let rest : numbered C S fs ≡ number_from (o +ℤ pos 1) rs = cc in
      let same : f.offset ≡ o = ap (λ (p : ℤ × Record). p.0) first in
      ap (λ q. offset_after C S (q +ℤ pos 1) fs) same
      ∙ offset_after-number_from (o +ℤ pos 1) fs rs rest
      ∙ far_offset o 1 (length rs)
      ∙ ap (λ (n : ℕ). o +ℤ pos n) (omega arith)

  module _ (base : ℤ) (log : List Record) where
    -- The fetched records are the next ones of the log, and all of them if there were enough rounds.
    abbrev pub Covers : ℕ → ℤ → List Record → List (Fetched C S) → Type 0
    Covers n o after fs =
        (done rest : List Record) × (done ++ rest ≡ after)
        × (numbered C S fs ≡ number_from o done)
        × ((length rest ≡ 0) ⊎ (n ≤ length done))

    -- After a round that gave records.
    batch_lem :
        (n m : ℕ) (before given rest : List Record) (fs later : List (Fetched C S))
        → numbered C S fs ≡ number_from (base +ℤ pos (length before)) given
        → Covers n (base +ℤ pos (length (before ++ given))) rest later
        → (length (given ++ rest) ≡ 0) ⊎ (m ≤ n + length given)
        → Covers m (base +ℤ pos (length before)) (given ++ rest) (fs ++ later)
    batch_lem n m before given rest fs later got (done, left, whole, rest_is, enough) more =
        let o = base +ℤ pos (length before) in
        let next : base +ℤ pos (length (before ++ given)) ≡ o +ℤ pos (length given) =
          ap (λ (l : ℕ). base +ℤ pos l) (length-append before given)
          ∙ sym (far_offset base (length before) (length given)) in
        (
          given ++ done,
          left,
          append_assoc given done left ∙ ap (λ r. given ++ r) whole,
          map-append _ fs later
              ∙ ap₂ ◌++◌ got (rest_is ∙ ap (λ a. number_from a done) next)
              ∙ sym (number_from-append o given done),
          ground (
            arith,
            enough,
            more,
            length-append given done,
            length-append given rest,
            length-append done left,
            ap length whole,
          ),
        )

    pub next_offset :
        (before given : List Record) (fs : List (Fetched C S))
        → numbered C S fs ≡ number_from (base +ℤ pos (length before)) given
        → offset_after C S (base +ℤ pos (length before)) fs ≡ base +ℤ pos (length (before ++ given))
    next_offset before given fs got =
        offset_after-number_from (base +ℤ pos (length before)) fs given got
        ∙ far_offset base (length before) (length given)
        ∙ ap (λ (l : ℕ). base +ℤ pos l) (sym (length-append before given))

    got_records :
        (o : ℤ) (q : Poll C S) (later : List (Poll C S)) (fs : List (Fetched C S))
        (high_watermark : ℤ)
        → q o ≡ fetched fs high_watermark
        → records_of C S (polled C S o (q ∷ later))
          ≡ fs ++ records_of C S (polled C S (offset_after C S o fs) later)
    unfolding polled records_of
    got_records o q later fs high_watermark e = rw e refl

    no_records :
        (before : List Record) (q : Poll C S) (later : List (Poll C S))
        → BringsNothing C S base log q before
        → records_of C S (polled C S (base +ℤ pos (length before)) (q ∷ later))
          ≡ records_of C S (polled C S (base +ℤ pos (length before)) later)
    unfolding polled records_of
    no_records before q later (inl (e, failed)) = rw failed refl
    no_records before q later (inr going_on) = rw going_on refl

    -- A round that gave records, and those behind it.
    round_lem :
        (n m : ℕ) (before after given rest : List Record) (q : Poll C S) (later : List (Poll C S))
        → given ++ rest ≡ after
        → Gives C S base log q before given
        → Covers n
            (base +ℤ pos (length (before ++ given)))
            rest
            (records_of C S (polled C S (base +ℤ pos (length (before ++ given))) later))
        → (length (given ++ rest) ≡ 0) ⊎ (m ≤ n + length given)
        → Covers m
            (base +ℤ pos (length before))
            after
            (records_of C S (polled C S (base +ℤ pos (length before)) (q ∷ later)))
    round_lem n m before after given rest q later whole (fs, high_watermark, gave, got) ih more =
        let o = base +ℤ pos (length before) in
        let records : records_of C S (polled C S o (q ∷ later))
            ≡ fs ++ records_of C S (polled C S (base +ℤ pos (length (before ++ given))) later) =
          got_records o q later fs high_watermark gave
          ∙ ap (λ a. fs ++ records_of C S (polled C S a later)) (next_offset before given fs got) in
        subst (λ a. Covers m o a (records_of C S (polled C S o (q ∷ later)))) whole
          (subst (Covers m o (given ++ rest)) (sym records)
            (batch_lem n m before given rest fs _ got ih more))

    pub polled-Covers :
        (n : ℕ) (qs : List (Poll C S)) (before after : List Record)
        → Polls C S base log n qs
        → before ++ after ≡ log
        → Covers n
            (base +ℤ pos (length before))
            after
            (records_of C S (polled C S (base +ℤ pos (length before)) qs))
    polled-Covers n qs before after over cut =
        ([], after, refl, unfold polled records_of number_from in refl, inr (omega arith))
    polled-Covers n qs before after (served {n = m} {q = q} {qs = later} gives more) cut =
        let (given, rest, whole, gave, some_or_end) = gives before after cut in
        let cut' : (before ++ given) ++ rest ≡ log =
          append_assoc before given rest ∙ ap (λ a. before ++ a) whole ∙ cut in
        round_lem m (suc m) before after given rest q later whole gave
          (polled-Covers m later (before ++ given) rest more cut')
          (ground (arith, some_or_end, ap length whole))
    polled-Covers n qs before after (idle {n = m} {q = q} {qs = later} serves more) cut =
        elim (serves before after cut) [
          | inl nothing ↦
              subst (Covers m (base +ℤ pos (length before)) after)
                (sym (no_records before q later nothing))
                (polled-Covers m later before after more cut)
          | inr (given, rest, whole, gave) ↦
              let cut' : (before ++ given) ++ rest ≡ log =
                append_assoc before given rest ∙ ap (λ a. before ++ a) whole ∙ cut in
              round_lem m m before after given rest q later whole gave
                (polled-Covers m later (before ++ given) rest more cut') (inr (omega arith))
        ]

    round-running :
        (before after given rest : List Record) (q : Poll C S) (later : List (Poll C S))
        → before ++ after ≡ log
        → given ++ rest ≡ after
        → Gives C S base log q before given
        → ((before ++ given) ++ rest ≡ log
            → ending_of C S (polled C S (base +ℤ pos (length (before ++ given))) later) ≡ running)
        → ending_of C S (polled C S (base +ℤ pos (length before)) (q ∷ later)) ≡ running
    unfolding polled ending_of
    round-running before after given rest q later cut whole (fs, high_watermark, gave, got) ih =
        rw gave (
          ap (λ o. ending_of C S (polled C S o later)) (next_offset before given fs got)
          ∙ ih (append_assoc before given rest ∙ ap (λ a. before ++ a) whole ∙ cut))

    -- No round of the log tells to stop.
    pub polled-running :
        (n : ℕ) (qs : List (Poll C S)) (before after : List Record)
        → Polls C S base log n qs
        → before ++ after ≡ log
        → ending_of C S (polled C S (base +ℤ pos (length before)) qs) ≡ running
    unfolding polled ending_of
    polled-running n qs before after over cut = refl
    polled-running n qs before after (served {n = m} {q = q} {qs = later} gives more) cut =
        let (given, rest, whole, gave, _) = gives before after cut in
        round-running before after given rest q later cut whole gave
          (λ cut'. polled-running m later (before ++ given) rest more cut')
    polled-running n qs before after (idle {n = m} {q = q} {qs = later} serves more) cut =
        elim (serves before after cut) [
          | inl (inl (e, failed)) ↦ rw failed (polled-running m later before after more cut)
          | inl (inr going_on) ↦ rw going_on (polled-running m later before after more cut)
          | inr (given, rest, whole, gave) ↦
              round-running before after given rest q later cut whole gave
                (λ cut'. polled-running m later (before ++ given) rest more cut')
        ]
