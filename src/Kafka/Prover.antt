-- ===== src/Kafka/Prover.antt =====
-- src/kafka/prover.rs: `KafkaProverClient`. What the random generator, the clocks and the Kafka
-- client give are arguments.
pub mod New
pub mod Wait
pub mod Scan
pub mod Finds
use zkp_verifier.Common.{
  String, Bool, Option, none, some, List, [], ◌∷◌, Outcome, ok, err, panic, ◌>>=◌, map_err, Bytes,
  ◌==◌, string_eq, if◌then◌else◌,
}
use zkp_verifier.Common.Int.{ℤ, pos, ◌+ℤ◌}
use zkp_verifier.Curve.{Curve}
use zkp_verifier.Proof.{ZkpError}
use zkp_verifier.Protocol.{KafkaAuthRequest, KafkaAuthResponse, Format}
use zkp_verifier.Protocol.KafkaRequest
use zkp_verifier.Protocol.KafkaResponse
use zkp_verifier.Engine.{public_key, public_to_bytes, generate_proof, corrupt}
use zkp_verifier.Kafka.{Record, KafkaError, zkp_error, client_error, Reply, brings, brings_error}

module _ (C : Curve) where
  -- The clock in seconds, the random nonce and scalar, the UUID, the clocks of the request and of
  -- the record, and the answer of `produce`.
  pub record Draw : Type 0 where
    pub now : ℤ
    pub nonce : Bytes
    pub k : C.Scalar
    pub uuid : String
    pub millis : ℤ
    pub stamp : ℤ
    pub produced : Outcome String (Unit {0})

  -- The request's proof, corrupted on demand.
  unfoldable pub make_request : Draw → String → C.Scalar → Bool → Outcome ZkpError KafkaAuthRequest
  make_request d user_id secret_key tamper = do
    let pk = public_key C secret_key
    proof ← generate_proof C secret_key pk d.now d.nonce d.k
    ok (
        KafkaRequest.new d.uuid d.millis user_id (public_to_bytes C pk)
          (if tamper then corrupt proof else proof))

  -- The record that is handed to `produce`, and the result.
  abbrev pub Submitted : Type 0
  Submitted = Option Record × Outcome KafkaError KafkaAuthRequest

  unfoldable pub send_payload : Draw → KafkaAuthRequest → Outcome ZkpError Bytes → Submitted
  send_payload d request (err e) = (none, err (zkp_error e))
  send_payload d request panic = (none, panic)
  send_payload d request (ok payload) = (
    some (record { key = some request.user_id; value = some payload; timestamp = d.stamp }),
    map_err client_error d.produced >>= λ _. ok request,
  )

  unfoldable pub send_request :
      Format KafkaAuthRequest → Draw → Outcome ZkpError KafkaAuthRequest → Submitted
  unfolding send_payload
  send_request json d (ok request) =
      send_payload d request (KafkaRequest.to_json_bytes json request)
  send_request json d (err e) = (none, err (zkp_error e))
  send_request json d panic = (none, panic)

  unfoldable pub submit_verification :
      Format KafkaAuthRequest → Draw → String → C.Scalar → Bool → Submitted
  unfolding make_request send_request
  submit_verification json d user_id secret_key tamper =
      send_request json d (make_request d user_id secret_key tamper)

-- The response that a record of the topic holds, if it can be read and answers the request.
abbrev pub if_matches : String → Outcome ZkpError KafkaAuthResponse → Option KafkaAuthResponse
if_matches request_id (ok resp) = if resp.request_id == request_id then some resp else none
if_matches request_id _ = none

abbrev pub match_value : Format KafkaAuthResponse → String → Option Bytes → Option KafkaAuthResponse
match_value json request_id none = none
match_value json request_id (some val) =
    if_matches request_id (KafkaResponse.from_json_bytes json val)

-- The records of one fetch: the response, or the offset to go on from.
abbrev pub Scanned : Type 0
Scanned = Option KafkaAuthResponse × ℤ

abbrev pub found_or : ℤ → Option KafkaAuthResponse → Scanned → Scanned
found_or next (some resp) rest = (some resp, next)
found_or next none rest = rest

unfoldable pub scan_records : Format KafkaAuthResponse → String → ℤ → List (ℤ × Record) → Scanned
scan_records json request_id offset [] = (none, offset)
scan_records json request_id offset ((at, r) ∷ rs) =
    found_or (at +ℤ pos 1) (match_value json request_id r.value)
      (scan_records json request_id (at +ℤ pos 1) rs)

-- A fetch from an offset.
abbrev pub Fetch : Type 0
Fetch = ℤ → Reply (List (ℤ × Record))

abbrev pub after_scan : Scanned → (ℤ → Option KafkaAuthResponse) → Option KafkaAuthResponse
after_scan (some resp, next) continue = some resp
after_scan (none, next) continue = continue next

-- An error is printed, and the next round follows at the same offset.
abbrev pub after_fetch :
    Format KafkaAuthResponse
    → String
    → ℤ
    → Reply (List (ℤ × Record))
    → (ℤ → Option KafkaAuthResponse)
    → Option KafkaAuthResponse
after_fetch json request_id offset (brings records) continue =
    after_scan (scan_records json request_id offset records) continue
after_fetch json request_id offset (brings_error e) continue = continue offset

-- The rounds of the loop that start before the deadline.
unfoldable pub wait_rounds :
    Format KafkaAuthResponse → String → ℤ → List Fetch → Option KafkaAuthResponse
unfolding scan_records
wait_rounds json request_id offset [] = none
wait_rounds json request_id offset (fetch ∷ rounds) =
    after_fetch json request_id offset (fetch offset)
      (λ next. wait_rounds json request_id next rounds)

-- `match get_offset(…) { Ok(off) => off, Err(_) => 0 }`
unfoldable pub earliest_offset : Reply ℤ → ℤ
earliest_offset (brings off) = off
earliest_offset (brings_error e) = pos 0

unfoldable pub wait_for_response :
    Format KafkaAuthResponse → String → Reply ℤ → List Fetch → Option KafkaAuthResponse
unfolding wait_rounds earliest_offset
wait_for_response json request_id earliest rounds =
    wait_rounds json request_id (earliest_offset earliest) rounds
