-- ===== src/Kafka/Prover/Finds.antt =====
-- src/kafka/prover.rs: `wait_for_response` on a log of responses.
use zkp_verifier.Common.{
  ℕ, suc, ◌<◌, ◌≤◌, ◌≡◌, refl, ap, sym, ◌∙◌, subst, ◌⊎◌, inl, inr, String, Option, none, List, [],
  ◌∷◌, ◌++◌, length, length-append, arith, Option-cases,
}
use mathlib.Core.List.{append_assoc}
use zkp_verifier.Common.Int.{ℤ, pos, ◌+ℤ◌}
use zkp_verifier.Protocol.{KafkaAuthResponse, Format}
use zkp_verifier.Kafka.{Record, brings}
use zkp_verifier.Kafka.Prover.{
  Fetch, after_scan, after_fetch, wait_rounds, wait_for_response, earliest_offset,
}
use zkp_verifier.Kafka.Log.{Gives, Rounds, over, served, idle, or_else, first_answer}
use zkp_verifier.Kafka.Prover.Scan.{
  far_offset, same_offset, first_answer-append, scan_records-first_answer, scan_records-none,
  after_scan-some,
}

module _ (json : Format KafkaAuthResponse) (request_id : String) where
  module _ (base : ℤ) (log : List Record) where
    -- The result is the first answer, or there was none yet and the rounds were too few.
    abbrev pub Outlook : ℕ → List Record → Option KafkaAuthResponse → Type 0
    Outlook n after result =
        (result ≡ first_answer json request_id after) ⊎ ((result ≡ none) × (n < length after))

    module _ (fetch : Fetch) (before given rest : List Record)
        (gives : Gives base log fetch before given) (n m : ℕ)
        (continue : ℤ → Option KafkaAuthResponse)
        (ih : Outlook n rest (continue (base +ℤ pos (length (before ++ given)))))
        (enough : n < length rest → m < length (given ++ rest)) where
      round-Outlook : Outlook m (given ++ rest) (
          after_fetch json request_id
            (base +ℤ pos (length before))
            (fetch (base +ℤ pos (length before)))
            continue)
      round-Outlook = elim (Option-cases (first_answer json request_id given)) [
        | inl nothing ↦
            let o = base +ℤ pos (length before) in
            let next : o +ℤ pos (length given) ≡ base +ℤ pos (length (before ++ given)) =
              far_offset base (length before) (length given)
              ∙ ap (λ (l : ℕ). base +ℤ pos l) (sym (length-append before given)) in
            let goes_on : after_fetch json request_id o (fetch o) continue
                ≡ continue (base +ℤ pos (length (before ++ given))) =
              ap (λ r. after_fetch json request_id o r continue) gives
              ∙ ap (λ s. after_scan s continue) (scan_records-none json request_id o given nothing)
              ∙ ap continue next in
            let whole : first_answer json request_id (given ++ rest)
                ≡ first_answer json request_id rest =
              first_answer-append json request_id given rest
              ∙ ap (λ a. or_else a (first_answer json request_id rest)) nothing in
            elim ih [
              | inl found ↦ inl (goes_on ∙ found ∙ sym whole)
              | inr (still, few) ↦ inr (goes_on ∙ still, enough few)
            ]
        | inr (r, found) ↦ inl (
            ap (λ q. after_fetch json request_id (base +ℤ pos (length before)) q continue) gives
            ∙ after_scan-some json request_id _ continue r
                (scan_records-first_answer json request_id _ given ∙ found)
            ∙ sym (
                first_answer-append json request_id given rest
                ∙ ap (λ a. or_else a (first_answer json request_id rest)) found))
      ]

    wait_rounds-Outlook :
        (n : ℕ) (rounds : List Fetch) (before after : List Record)
        → Rounds base log n rounds
        → before ++ after ≡ log
        → Outlook n after (wait_rounds json request_id (base +ℤ pos (length before)) rounds)
    unfolding wait_rounds first_answer
    wait_rounds-Outlook n rounds before [] over cut = inl refl
    wait_rounds-Outlook n rounds before (x ∷ after) over cut = inr (refl, omega arith)
    wait_rounds-Outlook n rounds before after
          (served {n = m} {fetch = fetch} {rounds = later} gives more) cut =
        let (given, rest, whole, got, some_or_end) = gives before after cut in
        let cut' : (before ++ given) ++ rest ≡ log =
          append_assoc before given rest ∙ ap (λ a. before ++ a) whole ∙ cut in
        subst
          (λ a.
            Outlook (suc m) a
              (wait_rounds json request_id (base +ℤ pos (length before)) (fetch ∷ later)))
          whole
          (round-Outlook fetch before given rest got m (suc m)
            (λ q. wait_rounds json request_id q later)
            (wait_rounds-Outlook m later (before ++ given) rest more cut')
            (λ few. ground (arith, length-append given rest, ap length whole)))
    wait_rounds-Outlook n rounds before after
          (idle {n = m} {fetch = fetch} {rounds = later} serves more) cut =
        elim (serves before after cut) [
          | inl (e, failed) ↦
              let o = base +ℤ pos (length before) in
              subst (Outlook m after)
                (sym (
                  ap
                    (λ r.
                      after_fetch json request_id o r (λ q. wait_rounds json request_id q later))
                    failed))
                (wait_rounds-Outlook m later before after more cut)
          | inr (given, rest, whole, got) ↦
              let cut' : (before ++ given) ++ rest ≡ log =
                append_assoc before given rest ∙ ap (λ a. before ++ a) whole ∙ cut in
              subst
                (λ a.
                  Outlook m a
                    (wait_rounds json request_id (base +ℤ pos (length before)) (fetch ∷ later)))
                whole
                (round-Outlook fetch before given rest got m m
                  (λ q. wait_rounds json request_id q later)
                  (wait_rounds-Outlook m later (before ++ given) rest more cut')
                  (λ few. omega (arith, length-append given rest)))
        ]

    module _ (n : ℕ) (rounds : List Fetch) (on_log : Rounds base log n rounds) where
      -- `wait_for_response` never passes over an answer.
      pub wait_for_response-Outlook :
          Outlook n log (wait_for_response json request_id (brings base) rounds)
      unfolding wait_for_response earliest_offset
      wait_for_response-Outlook =
          subst (λ o. Outlook n log (wait_rounds json request_id o rounds)) (same_offset base)
            (wait_rounds-Outlook n rounds [] log on_log refl)

      pub wait_for_response-first_answer :
          length log ≤ n
          → wait_for_response json request_id (brings base) rounds
            ≡ first_answer json request_id log
      wait_for_response-first_answer enough = elim wait_for_response-Outlook [
        | inl found ↦ found
        | inr (_, few) ↦ absurd (omega arith)
      ]
