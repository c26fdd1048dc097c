-- ===== src/Kafka/Log.antt =====
-- The topic of the responses as `rskafka` serves it: a log of records with consecutive offsets, from
-- which a fetch gives some of the records that follow its offset.
use zkp_verifier.Common.{
  ℕ, zero, suc, ◌<◌, ◌≡◌, ◌⊎◌, String, Option, none, some, List, [], ◌∷◌, ◌++◌, length,
}
use zkp_verifier.Common.Int.{ℤ, pos, ◌+ℤ◌}
use zkp_verifier.Protocol.{KafkaAuthResponse, Format}
use zkp_verifier.Kafka.{Record, brings, brings_error}
use zkp_verifier.Kafka.Prover.{Fetch, match_value}

unfoldable pub number_from : ℤ → List Record → List (ℤ × Record)
number_from offset [] = []
number_from offset (r ∷ rs) = (offset, r) ∷ number_from (offset +ℤ pos 1) rs

module _ (base : ℤ) (log : List Record) (fetch : Fetch) where
  -- A fetch behind the records `before` gives the first of those that follow.
  abbrev pub Gives : List Record → List Record → Type 0
  Gives before given =
      fetch (base +ℤ pos (length before)) ≡ brings (number_from (base +ℤ pos (length before)) given)

  -- A fetch may fail.
  abbrev pub Serves : Type 0
  Serves =
      (before after : List Record)
      → before ++ after ≡ log
      → ((e : String) × (fetch (base +ℤ pos (length before)) ≡ brings_error e))
        ⊎ ((given rest : List Record) × (given ++ rest ≡ after) × Gives before given)

  -- It does not fail, and gives a record if there is one.
  abbrev pub Advances : Type 0
  Advances =
      (before after : List Record)
      → before ++ after ≡ log
      → (given rest : List Record) × (given ++ rest ≡ after)
        × Gives before given
        × ((length after ≡ 0) ⊎ (0 < length given))

-- The rounds of a loop on the log, of which so many advance.
pub data Rounds (base : ℤ) (log : List Record) : ℕ → List Fetch → Type 0 where
  over : Rounds base log zero []
  served :
      {n : ℕ} {fetch : Fetch} {rounds : List Fetch}
      → Advances base log fetch
      → Rounds base log n rounds
      → Rounds base log (suc n) (fetch ∷ rounds)
  idle :
      {n : ℕ} {fetch : Fetch} {rounds : List Fetch}
      → Serves base log fetch
      → Rounds base log n rounds
      → Rounds base log n (fetch ∷ rounds)

abbrev pub or_else : Option KafkaAuthResponse → Option KafkaAuthResponse → Option KafkaAuthResponse
or_else (some a) b = some a
or_else none b = b

-- The first record that reads as a response to the request.
unfoldable pub first_answer :
    Format KafkaAuthResponse → String → List Record → Option KafkaAuthResponse
first_answer json request_id [] = none
first_answer json request_id (r ∷ rs) =
    or_else (match_value json request_id r.value) (first_answer json request_id rs)
