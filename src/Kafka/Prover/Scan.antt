-- ===== src/Kafka/Prover/Scan.antt =====
-- src/kafka/prover.rs: the records of one fetch, as `wait_for_response` looks through them.
use zkp_verifier.Common.{
  ℕ, suc, ◌+◌, ◌≡◌, refl, ap, sym, ◌∙◌, String, Option, none, some, List, [], ◌∷◌, ◌++◌, length,
}
use zkp_verifier.Common.Int.{ℤ, pos, ◌+ℤ◌, int_laws, eq_of_parts}
use zkp_verifier.Protocol.{KafkaAuthResponse, Format}
use zkp_verifier.Kafka.{Record}
use zkp_verifier.Kafka.Prover.{Scanned, match_value, found_or, scan_records, after_scan}
use zkp_verifier.Kafka.Log.{number_from, or_else, first_answer}

next_offset : (o : ℤ) (n : ℕ) → (o +ℤ pos 1) +ℤ pos n ≡ o +ℤ pos (suc n)
next_offset o n = eq_of_parts _ _ (omega int_laws)

pub same_offset : (o : ℤ) → o +ℤ pos 0 ≡ o
same_offset o = eq_of_parts _ _ (omega int_laws)

pub far_offset : (o : ℤ) (m n : ℕ) → (o +ℤ pos m) +ℤ pos n ≡ o +ℤ pos (m + n)
far_offset o m n = eq_of_parts _ _ (omega int_laws)

module _ (json : Format KafkaAuthResponse) (request_id : String) where
  or_else_assoc :
      (a b c : Option KafkaAuthResponse) → or_else (or_else a b) c ≡ or_else a (or_else b c)
  or_else_assoc none b c = refl
  or_else_assoc (some a) b c = refl

  pub first_answer-append :
      (xs ys : List Record)
      → first_answer json request_id (xs ++ ys)
        ≡ or_else (first_answer json request_id xs) (first_answer json request_id ys)
  unfolding first_answer
  first_answer-append [] ys = refl
  first_answer-append (x ∷ xs) ys =
      ap (or_else (match_value json request_id x.value)) (first_answer-append xs ys)
      ∙ sym (
          or_else_assoc (match_value json request_id x.value) (first_answer json request_id xs)
            (first_answer json request_id ys))

  -- One fetch: the answer, or else the offset behind its records.
  found_or-or_else :
      (next : ℤ) (m : Option KafkaAuthResponse) (rest : Scanned)
      → (found_or next m rest).0 ≡ or_else m rest.0
  found_or-or_else next none rest = refl
  found_or-or_else next (some r) rest = refl

  pub scan_records-first_answer :
      (o : ℤ) (xs : List Record)
      → (scan_records json request_id o (number_from o xs)).0 ≡ first_answer json request_id xs
  unfolding scan_records number_from first_answer
  scan_records-first_answer o [] = refl
  scan_records-first_answer o (x ∷ xs) =
      found_or-or_else _ (match_value json request_id x.value) _
      ∙ ap (or_else (match_value json request_id x.value))
          (scan_records-first_answer (o +ℤ pos 1) xs)

  or_else-none : (a b : Option KafkaAuthResponse) → or_else a b ≡ none → (a ≡ none) × (b ≡ none)
  or_else-none none b h = (refl, h)
  or_else-none (some a) b h = ((cc), (cc))

  pub scan_records-none :
      (o : ℤ) (xs : List Record)
      → first_answer json request_id xs ≡ none
      → scan_records json request_id o (number_from o xs) ≡ (none, o +ℤ pos (length xs))
  unfolding scan_records number_from first_answer
  scan_records-none o [] h = ap (λ (q : ℤ). (none, q)) (sym (same_offset o))
  scan_records-none o (x ∷ xs) h =
      let (nothing, more) = or_else-none (match_value json request_id x.value) _ h in
      ap
        (λ m.
          found_or (o +ℤ pos 1) m
            (scan_records json request_id (o +ℤ pos 1) (number_from (o +ℤ pos 1) xs)))
        nothing
      ∙ scan_records-none (o +ℤ pos 1) xs more
      ∙ ap (λ (q : ℤ). (none, q)) (next_offset o (length xs))

  pub after_scan-some :
      (s : Scanned) (continue : ℤ → Option KafkaAuthResponse) (r : KafkaAuthResponse)
      → s.0 ≡ some r
      → after_scan s continue ≡ some r
  after_scan-some (none, q) continue r h = cc
  after_scan-some (some a, q) continue r h = h
