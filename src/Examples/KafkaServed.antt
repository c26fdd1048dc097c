-- ===== src/Examples/KafkaServed.antt =====
-- The worker reads a log of one request, in two rounds.
use zkp_verifier.Common.{◌≡◌, refl, ap, sym, inl, inr, List, [], ◌∷◌, arith, length, if◌then◌else◌}
use zkp_verifier.Common.Int.{pos}
use zkp_verifier.Kafka.Log.{number_from}
use zkp_verifier.Kafka.Worker.{running, Fetched, fetched, fetch_failed, process_records}
use zkp_verifier.Kafka.Worker.Batches.{finish}
use zkp_verifier.Kafka.Worker.Polls.{Poll, numbered, Advances, Polls, over, served, idle, run_polls}
use zkp_verifier.Kafka.Worker.Served.{run_polls-log}
use zkp_verifier.Examples.Group.{two}
use zkp_verifier.Examples.Database.{lists}
use zkp_verifier.Examples.Engine.{odd}
use zkp_verifier.Examples.Replay.{minute}
use zkp_verifier.Examples.KafkaFormat.{is_at}
use zkp_verifier.Examples.KafkaLogin.{from_zero}
use zkp_verifier.Examples.Kafka.{knows, request_with, response_format, moment, incoming}

abbrev first_request : Fetched two lists
first_request = record { offset = pos 0; record_ = incoming; moment = moment }

abbrev ask : Poll two lists
ask = λ offset. fetched (if is_at 0 offset then first_request ∷ [] else []) (pos 1)

ask-Advances : Advances two lists (pos 0) (incoming ∷ []) ask
unfolding number_from
ask-Advances [] after cut = (
  incoming ∷ [],
  [],
  sym cut,
  rw (from_zero 0) (first_request ∷ [], pos 1, refl, refl),
  inr (omega arith),
)
ask-Advances (r ∷ []) [] cut = ([], [], refl, rw (from_zero 1) ([], pos 1, refl, refl), inl refl)
ask-Advances (r ∷ []) (x ∷ after) cut = absurd (omega (arith, ap length cut))
ask-Advances (r ∷ q ∷ before) after cut = absurd (omega (arith, ap length cut))

abbrev polls : List (Poll two lists)
polls = (λ offset. fetch_failed "timeout") ∷ ask ∷ []

on_log : Polls two lists (pos 0) (incoming ∷ []) 1 polls
on_log = idle (λ before after cut. inl (inl ("timeout", refl))) (served ask-Advances over)

run_polls-log_example :
    (fs : List (Fetched two lists)) × (numbered two lists fs ≡ number_from (pos 0) (incoming ∷ []))
    × (run_polls two lists
          (knows (request_with odd))
          (knows (request_with odd))
          response_format
          (pos 0)
          minute
          polls
        ≡ process_records two lists
            (knows (request_with odd))
            (knows (request_with odd))
            response_format
            (pos 0)
            minute
            fs
            (finish two lists running))
run_polls-log_example =
    run_polls-log two lists (knows (request_with odd)) (knows (request_with odd)) response_format
      (pos 0) (incoming ∷ []) 1 polls on_log (omega arith) minute
