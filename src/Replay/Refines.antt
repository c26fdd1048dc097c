-- ===== src/Replay/Refines.antt =====
-- src/replay.rs: `check_and_record` against a rule that forgets nothing.
use zkp_verifier.Common.{
  ◌≡◌, refl, ap, ap₂, sym, ◌∙◌, Bool, true, false, ◌&&◌, not, Option, none, some, List, [], ◌∷◌,
  ◌==◌, arith, All, if◌then◌else◌,
}
use zkp_verifier.Common.Int.{ℤ, ◌-ℤ◌, ◌≤ℤ◌, IsI64, -ℤ_parts}
use zkp_verifier.HashMap
use zkp_verifier.HashMap.{is_some, keep_if}
use zkp_verifier.Replay.{
  Key, key_eq, ReplayProtector, new, at_least, record_nonce, check_and_record,
}
use zkp_verifier.Replay.Window.{IsSeconds, check_drift-ok_iff}
use zkp_verifier.Replay.Trace.{
  IsValid, Call, attempt, check_and_record-IsValid, check_and_record-drift,
}
use zkp_verifier.Replay.Table.{in_window, live, get-prune, get-check_and_record}
use zkp_verifier.Replay.History.{key_of, in_use, judge, judge_all, passed, answers, InOrder}

keep_twice :
    (d now later : ℤ) (o : Option ℤ)
    → now ≤ℤ later
    → keep_if (at_least (later -ℤ d)) (keep_if (at_least (now -ℤ d)) o)
      ≡ keep_if (at_least (later -ℤ d)) o
keep_twice d now later none h = refl
keep_twice d now later (some ts) h = ground (arith, -ℤ_parts now d, -ℤ_parts later d)

in_use-later :
    (d now later : ℤ) (k : Key) (cs : List Call)
    → now ≤ℤ later
    → in_use d now k cs ≡ false
    → in_use d later k cs ≡ false
in_use-later d now later k [] h free = refl
in_use-later d now later k (c ∷ cs) h free =
    ground (arith, -ℤ_parts now d, -ℤ_parts later d, in_use-later d now later k cs h)

-- The table tells what the list of accepted calls tells, from a clock reading on.
record Tells (d now : ℤ) (p : ReplayProtector) (accepted : List Call) : Type 0 where
  valid : IsValid p
  drift_is : p.max_drift_secs ≡ d
  same :
      (later : ℤ) (k : Key)
      → now ≤ℤ later
      → is_some (keep_if (at_least (later -ℤ d)) (HashMap.get k p.seen_nonces))
        ≡ in_use d later k accepted

module _ (d : ℤ) (p : ReplayProtector) (c : Call) (v : IsValid p) (hn : IsSeconds c.now)
    (ht : IsI64 c.proof.timestamp) where
  passed-attempt : passed (attempt p c).0 ≡ (
      in_window p.max_drift_secs c.now c.proof.timestamp && not (is_some (live p c.now (key_of c))))
  unfolding attempt check_and_record record_nonce
  passed-attempt = ground (
    arith,
    get-prune p v c.now hn (key_of c),
    check_drift-ok_iff p.max_drift_secs c.now c.proof.timestamp v.drift hn ht,
  )

module _ (d now : ℤ) (p : ReplayProtector) (accepted : List Call) (tells : Tells d now p accepted)
    (c : Call) (later_is : now ≤ℤ c.now) (hn : IsSeconds c.now) (ht : IsI64 c.proof.timestamp) where
  live-in_use : is_some (live p c.now (key_of c)) ≡ in_use d c.now (key_of c) accepted
  live-in_use =
      ap (λ e. is_some (keep_if (at_least (c.now -ℤ e)) (HashMap.get (key_of c) p.seen_nonces)))
        tells.drift_is
      ∙ tells.same c.now (key_of c) later_is

  passed-judge : passed (attempt p c).0 ≡ judge d accepted c
  passed-judge =
      passed-attempt d p c tells.valid hn ht
      ∙ ap₂ (λ e b. in_window e c.now c.proof.timestamp && not b) tells.drift_is live-in_use

  -- The table after the call.
  abbrev table : Bool → Bool → Bool → Option ℤ → Option ℤ
  table w used same_key o =
      if w
      then (if same_key && not used
          then some c.proof.timestamp
          else keep_if (at_least (c.now -ℤ d)) o)
      else o

  get-attempt :
      (k : Key)
      → HashMap.get k (attempt p c).1.seen_nonces
        ≡ table
            (in_window d c.now c.proof.timestamp)
            (in_use d c.now (key_of c) accepted)
            (key_of c == k)
            (HashMap.get k p.seen_nonces)
  unfolding attempt
  get-attempt k =
      get-check_and_record p tells.valid c.now hn c.user_id c.proof k ht
      ∙ ap
          (λ e.
            if in_window e c.now c.proof.timestamp
            then (if (key_of c == k) && not (is_some (live p c.now (key_of c)))
                then some c.proof.timestamp
                else keep_if (at_least (c.now -ℤ e)) (HashMap.get k p.seen_nonces))
            else HashMap.get k p.seen_nonces)
          tells.drift_is
      ∙ ap
          (λ b.
            table (in_window d c.now c.proof.timestamp) b (key_of c == k)
              (HashMap.get k p.seen_nonces))
          live-in_use

  table-in_use :
      (later : ℤ) (k : Key)
      → c.now ≤ℤ later
      → (w used same_key : Bool) → in_use d c.now (key_of c) accepted ≡ used
      → (key_of c == k) ≡ same_key
      → is_some
          (keep_if (at_least (later -ℤ d)) (table w used same_key (HashMap.get k p.seen_nonces)))
        ≡ in_use d later k (if w && not used then c ∷ accepted else accepted)
  table-in_use later k after false used same_key is_used is_key = tells.same later k (omega arith)
  table-in_use later k after true true true is_used is_key =
      ap is_some (keep_twice d c.now later (HashMap.get k p.seen_nonces) after)
      ∙ tells.same later k (omega arith)
  table-in_use later k after true true false is_used is_key =
      ap is_some (keep_twice d c.now later (HashMap.get k p.seen_nonces) after)
      ∙ tells.same later k (omega arith)
  table-in_use later k after true false false is_used is_key = rw is_key (
      ap is_some (keep_twice d c.now later (HashMap.get k p.seen_nonces) after)
      ∙ tells.same later k (omega arith))
  table-in_use later k after true false true is_used is_key =
      let key_is : key_of c ≡ k = (key_eq.beq_iff (key_of c) k).0 is_key in
      let free : in_use d later k accepted ≡ false =
        ap (λ j. in_use d later j accepted) (sym key_is)
        ∙ in_use-later d c.now later (key_of c) accepted after is_used in
      rw (is_key, free) (ground arith)

  attempt-Tells :
      Tells d c.now (attempt p c).1 (if judge d accepted c then c ∷ accepted else accepted)
  attempt-Tells = record {
    valid = unfold attempt in check_and_record-IsValid p tells.valid c.now hn c.user_id c.proof;
    drift_is =
        unfold attempt in (check_and_record-drift p c.now c.user_id c.proof ∙ tells.drift_is);
    same = λ later k after.
        ap (λ o. is_some (keep_if (at_least (later -ℤ d)) o)) (get-attempt k)
        ∙ table-in_use later k after (in_window d c.now c.proof.timestamp)
            (in_use d c.now (key_of c) accepted) (key_of c == k) refl refl;
  }

new-Tells : (d now : ℤ) → IsSeconds d → Tells d now (new d) []
unfolding new HashMap.get
new-Tells d now hd = record {
  valid = record { distinct = tt; drift = hd };
  drift_is = refl;
  same = λ later k h. refl;
}

answers-judge_all :
    (d now : ℤ) (p : ReplayProtector) (accepted cs : List Call)
    → Tells d now p accepted
    → InOrder now cs
    → All (λ c. IsSeconds c.now × IsI64 c.proof.timestamp) cs
    → answers p cs ≡ judge_all d accepted cs
unfolding answers judge_all
answers-judge_all d now p accepted [] tells order ranges = refl
answers-judge_all d now p accepted (c ∷ cs) tells (next, order) ((hn, ht), ranges) =
    ap₂ ◌∷◌ (passed-judge d now p accepted tells c next hn ht) (
      answers-judge_all d c.now (attempt p c).1
        (if judge d accepted c then c ∷ accepted else accepted) cs
        (attempt-Tells d now p accepted tells c next hn ht) order ranges)

pub answers-judge_all-new :
    (d now : ℤ) (cs : List Call)
    → IsSeconds d
    → InOrder now cs
    → All (λ c. IsSeconds c.now × IsI64 c.proof.timestamp) cs
    → answers (new d) cs ≡ judge_all d [] cs
answers-judge_all-new d now cs hd order ranges =
    answers-judge_all d now (new d) [] cs (new-Tells d now hd) order ranges
