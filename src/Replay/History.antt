-- ===== src/Replay/History.antt =====
-- src/replay.rs: the rule that `check_and_record` keeps, if nothing were ever forgotten.
use zkp_verifier.Common.{
  Bool, true, false, ◌&&◌, ◌||◌, not, List, [], ◌∷◌, Outcome, ok, err, panic, ◌==◌, if◌then◌else◌,
}
use zkp_verifier.Common.Int.{ℤ, ◌-ℤ◌, ◌≤ℤ◌}
use zkp_verifier.Replay.{Key, key_eq, ReplayError, ReplayProtector, at_least}
use zkp_verifier.Replay.Trace.{Call, attempt}
use zkp_verifier.Replay.Table.{in_window}

abbrev pub key_of : Call → Key
key_of c = (c.user_id, c.proof.nonce)

-- Whether a key stands among the calls that were accepted, with a timestamp in the window's reach.
abbrev pub in_use : ℤ → ℤ → Key → List Call → Bool
in_use d now k [] = false
in_use d now k (c ∷ cs) =
    ((key_of c == k) && at_least (now -ℤ d) c.proof.timestamp) || in_use d now k cs

-- The rule: the timestamp is in the window, and no accepted call within it has the nonce.
abbrev pub judge : ℤ → List Call → Call → Bool
judge d accepted c = in_window d c.now c.proof.timestamp && not (in_use d c.now (key_of c) accepted)

-- All the answers, with the list of the accepted calls, to which nothing but calls are added.
unfoldable pub judge_all : ℤ → List Call → List Call → List Bool
judge_all d accepted [] = []
judge_all d accepted (c ∷ cs) =
    judge d accepted c ∷ judge_all d (if judge d accepted c then c ∷ accepted else accepted) cs

abbrev pub passed : Outcome ReplayError (Unit {0}) → Bool
passed (ok _) = true
passed (err e) = false
passed panic = false

unfoldable pub answers : ReplayProtector → List Call → List Bool
answers p [] = []
answers p (c ∷ cs) = passed (attempt p c).0 ∷ answers (attempt p c).1 cs

-- The clocks of the calls do not run backwards, from this reading on.
abbrev pub InOrder : ℤ → List Call → Type 0
InOrder now [] = Unit
InOrder now (c ∷ cs) = (now ≤ℤ c.now) × InOrder c.now cs
