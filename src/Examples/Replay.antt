-- ===== src/Examples/Replay.antt =====
-- A protector with a window of sixty seconds, and calls of it.
use zkp_verifier.Common.{
  ◌≡◌, refl, true, false, List, ◌↔◌, ◌>>◌, none, some, [], ◌∷◌, ok, err, arith, ◌^◌, ◌-◌,
}
use zkp_verifier.Common.Int.{ℤ, pos, negsuc, IsI64, ◌≤ℤ◌, ◌+ℤ◌, sub_i64, neg_i64}
use zkp_verifier.HashMap
use zkp_verifier.HashMap.{is_some}
use zkp_verifier.Proof.{Proof}
use zkp_verifier.Replay.{
  new, replay_detected, clock_skew_future, key_eq, ReplayProtector, check_drift, check_and_record,
  record_nonce,
}
use zkp_verifier.Replay.Window.{IsSeconds, drift_by_integers, check_drift_exact, check_drift_wraps}
use zkp_verifier.Replay.Trace.{IsValid, Call, attempt, run}
use zkp_verifier.Replay.Once.{nonce_reuse_detected}
use zkp_verifier.Replay.History.{judge_all, answers}
use zkp_verifier.Replay.Refines.{answers-judge_all-new}
use zkp_verifier.Replay.Race.{System, Reach, start, race_accepts_twice}
use zkp_verifier.Examples.Engine.{even, odd}

abbrev pub minute : ReplayProtector
minute = record { max_drift_secs = pos 60; seen_nonces = [] }

pub minute-IsValid : IsValid minute
minute-IsValid = record { distinct = tt; drift = (refl, omega arith) }

abbrev pub at : ℤ → Proof → Call
at now proof = record { now = now; user_id = "alice"; proof = proof }

-- Alice's first call passes.
first_passes : (attempt minute (at (pos 1000) even)).0 ≡ ok tt
unfolding attempt check_and_record record_nonce check_drift sub_i64 neg_i64 HashMap.get
    HashMap.retain
first_passes = refl

IsSeconds-1000 : IsSeconds (pos 1000)
IsSeconds-1000 = (refl, omega arith)

IsSeconds-1060 : IsSeconds (pos 1060)
IsSeconds-1060 = (refl, omega arith)

IsI64-1000 : IsI64 (pos 1000)
IsI64-1000 = (omega arith, omega arith)

check_drift_exact_example :
    check_drift (pos 60) (pos 1060) (pos 900) ≡ drift_by_integers (pos 60) (pos 1060) (pos 900)
check_drift_exact_example =
    check_drift_exact (pos 60) (pos 1060) (pos 900) (refl, omega arith) IsSeconds-1060
      (omega arith, omega arith) (omega arith)

-- The least i64 as a timestamp.
check_drift_wraps_example :
    check_drift (pos 60) (pos 1060) (negsuc (2 ^ 63 - 1))
    ≡ err (clock_skew_future (neg_i64 (sub_i64 (pos 1060) (negsuc (2 ^ 63 - 1)))))
check_drift_wraps_example =
    check_drift_wraps (pos 60) (pos 1060) (negsuc (2 ^ 63 - 1)) (refl, omega arith) IsSeconds-1060
      (omega arith, omega arith) (λ h. omega (arith, h))

in_time-1030 : pos 1030 ≤ℤ pos 1000 +ℤ pos 60
unfolding ◌+ℤ◌
in_time-1030 = omega arith

in_time-1060 : pos 1060 ≤ℤ pos 1000 +ℤ pos 60
unfolding ◌+ℤ◌
in_time-1060 = omega arith

nonce_reuse_detected_example :
    (attempt
      (run (attempt minute (at (pos 1000) even)).1 (at (pos 1030) odd ∷ []))
      (at (pos 1060) (record odd { nonce = even.nonce }))).0
    ≡ (check_drift (pos 60) (pos 1060) (pos 1000) >> err replay_detected)
nonce_reuse_detected_example =
    nonce_reuse_detected minute minute-IsValid (at (pos 1000) even) IsSeconds-1000
      (at (pos 1030) odd ∷ []) (at (pos 1060) (record odd { nonce = even.nonce })) first_passes
      (((refl, omega arith), in_time-1030), tt) (IsSeconds-1060, in_time-1060) refl refl

later-1061 : IsSeconds (pos 1060 +ℤ pos 1)
unfolding ◌+ℤ◌
later-1061 = (refl, omega arith)

oldest-1060 : pos 1000 +ℤ pos 60 ≡ pos 1060
unfolding ◌+ℤ◌
oldest-1060 = refl

latest-1061 : pos 1061 ≡ pos 1060 +ℤ pos 1
unfolding ◌+ℤ◌
latest-1061 = refl

race_accepts_twice_example :
    (s : System) × Reach (start (pos 60) (pos 1060)) s
    × (s.accepted
        ≡ ("alice", even) ∷ ("bob", record odd { timestamp = pos 1061 }) ∷ ("alice", even) ∷ [])
race_accepts_twice_example =
    race_accepts_twice (pos 60) (pos 1060) (refl, omega arith) IsSeconds-1060 later-1061 "alice"
      "bob" even (record odd { timestamp = pos 1061 }) oldest-1060 latest-1061 (λ e. cc)

-- Alice's proof passes once, and not again.
abbrev tries : List Call
tries = at (pos 1000) even ∷ at (pos 1010) even ∷ at (pos 1020) odd ∷ []

answers-judge_all-new_example : answers (new (pos 60)) tries ≡ judge_all (pos 60) [] tries
answers-judge_all-new_example =
    answers-judge_all-new (pos 60) (pos 1000) tries (refl, omega arith)
      (omega arith, (omega arith, (omega arith, tt)))
      (
        ((refl, omega arith), (omega arith, omega arith)),
        (
          ((refl, omega arith), (omega arith, omega arith)),
          (((refl, omega arith), (omega arith, omega arith)), tt),
        ),
      )

tries_answered : judge_all (pos 60) [] tries ≡ true ∷ false ∷ true ∷ []
unfolding judge_all ◌+ℤ◌ key_eq zkp_verifier.Common.Int.◌-ℤ◌
tries_answered = refl
