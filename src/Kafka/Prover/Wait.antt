-- ===== src/Kafka/Prover/Wait.antt =====
-- src/kafka/prover.rs: what `wait_for_response` returns.
use zkp_verifier.Common.{
  ◌≡◌, subst, String, Option, none, some, List, [], ◌∷◌, Outcome, ok, err, panic, Bytes, ◌==◌,
  string_eq, Bool-cases, inl, inr,
}
use zkp_verifier.Common.Int.{ℤ, pos, ◌+ℤ◌}
use zkp_verifier.Proof.{ZkpError}
use zkp_verifier.Protocol.{KafkaAuthResponse, Format}
use zkp_verifier.Protocol.KafkaResponse
use zkp_verifier.Kafka.{Record, Reply, brings, brings_error}
use zkp_verifier.Kafka.Prover.{
  if_matches, match_value, found_or, Scanned, scan_records, after_scan, after_fetch, wait_rounds,
  wait_for_response, earliest_offset, Fetch,
}

module _ (json : Format KafkaAuthResponse) (request_id : String) where
  -- What answers the request, if there is anything.
  abbrev IsAnswer : Option KafkaAuthResponse → Type 0
  IsAnswer none = Unit
  IsAnswer (some resp) = resp.request_id ≡ request_id

  if_matches-IsAnswer :
      (r : Outcome ZkpError KafkaAuthResponse) → IsAnswer (if_matches request_id r)
  if_matches-IsAnswer (err e) = tt
  if_matches-IsAnswer panic = tt
  if_matches-IsAnswer (ok resp) = elim (Bool-cases (resp.request_id == request_id)) [
    | inl same ↦ rw same ((string_eq.beq_iff resp.request_id request_id).0 same)
    | inr other ↦ rw other tt
  ]

  match_value-IsAnswer : (value : Option Bytes) → IsAnswer (match_value json request_id value)
  match_value-IsAnswer none = tt
  match_value-IsAnswer (some val) = if_matches-IsAnswer (KafkaResponse.from_json_bytes json val)

  found_or-IsAnswer :
      (next : ℤ) (m : Option KafkaAuthResponse) (rest : Scanned)
      → IsAnswer m
      → IsAnswer rest.0
      → IsAnswer (found_or next m rest).0
  found_or-IsAnswer next none rest h k = k
  found_or-IsAnswer next (some resp) rest h k = h

  scan_records-IsAnswer :
      (offset : ℤ) (rs : List (ℤ × Record)) → IsAnswer (scan_records json request_id offset rs).0
  unfolding scan_records
  scan_records-IsAnswer offset [] = tt
  scan_records-IsAnswer offset ((at, r) ∷ rs) =
      found_or-IsAnswer (at +ℤ pos 1) (match_value json request_id r.value)
        (scan_records json request_id (at +ℤ pos 1) rs) (match_value-IsAnswer r.value)
        (scan_records-IsAnswer (at +ℤ pos 1) rs)

  after_scan-IsAnswer :
      (s : Scanned) (continue : ℤ → Option KafkaAuthResponse)
      → IsAnswer s.0
      → ((offset : ℤ) → IsAnswer (continue offset))
      → IsAnswer (after_scan s continue)
  after_scan-IsAnswer (some resp, next) continue h k = h
  after_scan-IsAnswer (none, next) continue h k = k next

  after_fetch-IsAnswer :
      (offset : ℤ) (r : Reply (List (ℤ × Record))) (continue : ℤ → Option KafkaAuthResponse)
      → ((next : ℤ) → IsAnswer (continue next))
      → IsAnswer (after_fetch json request_id offset r continue)
  after_fetch-IsAnswer offset (brings records) continue k =
      after_scan-IsAnswer (scan_records json request_id offset records) continue
        (scan_records-IsAnswer offset records) k
  after_fetch-IsAnswer offset (brings_error e) continue k = k offset

  wait_rounds-IsAnswer :
      (offset : ℤ) (rounds : List Fetch) → IsAnswer (wait_rounds json request_id offset rounds)
  unfolding wait_rounds
  wait_rounds-IsAnswer offset [] = tt
  wait_rounds-IsAnswer offset (fetch ∷ rounds) =
      after_fetch-IsAnswer offset (fetch offset) _ (λ next. wait_rounds-IsAnswer next rounds)

  -- A response that `wait_for_response` returns carries the id of the request that was waited for,
  -- whatever records and errors the rounds of the loop bring.
  pub wait_for_response-request_id :
      (earliest : Reply ℤ) (rounds : List Fetch) (resp : KafkaAuthResponse)
      → wait_for_response json request_id earliest rounds ≡ some resp
      → resp.request_id ≡ request_id
  unfolding wait_for_response
  wait_for_response-request_id earliest rounds resp h =
      subst IsAnswer h (wait_rounds-IsAnswer (earliest_offset earliest) rounds)
