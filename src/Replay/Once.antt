-- ===== src/Replay/Once.antt =====
-- src/replay.rs: a proof or a nonce that comes to `check_and_record` a second time, with other
-- calls in between.
use zkp_verifier.Common.{◌≡◌, sym, ◌≢◌, ok, err, ◌>>◌, ap, ◌∙◌, List, [], ◌∷◌, arith, All}
use zkp_verifier.Common.Int.{ℤ, ◌+ℤ◌, ◌≤ℤ◌, IsI64}
use zkp_verifier.Proof.{Proof}
use zkp_verifier.Replay.{replay_detected, key_eq, ReplayProtector, check_drift}
use zkp_verifier.Replay.Window.{IsSeconds, check_drift-ok_iff}
use zkp_verifier.Replay.Trace.{
  IsValid, Call, attempt, run, run-drift, check_drift_of_ok, IsWithin, Holds, run-Holds,
  check_and_record-IsValid, check_and_record-drift, check_and_record-records,
  check_and_record-detects,
}

-- A protector that holds a user's nonce refuses it.
pub Holds-detects :
    (d ts : ℤ) (q : ReplayProtector) (c : Call)
    → Holds (c.user_id, c.proof.nonce) ts d q
    → IsSeconds c.now
    → c.now ≤ℤ ts +ℤ d
    → (attempt q c).0 ≡ (check_drift d c.now c.proof.timestamp >> err replay_detected)
unfolding attempt
Holds-detects d ts q c h hn fresh =
    check_and_record-detects q h.valid c.now hn ts c.user_id c.proof h.found (rw h.drift_is fresh)
    ∙ ap (λ e. check_drift e c.now c.proof.timestamp >> err replay_detected) h.drift_is

module _ (p : ReplayProtector) (v : IsValid p) (first : Call) (hn : IsSeconds first.now) where
  pub attempt-records :
      (attempt p first).0 ≡ ok tt
      → Holds
          (first.user_id, first.proof.nonce)
          first.proof.timestamp
          p.max_drift_secs
          (attempt p first).1
  unfolding attempt
  attempt-records h = record {
    valid = check_and_record-IsValid p v first.now hn first.user_id first.proof;
    drift_is = check_and_record-drift p first.now first.user_id first.proof;
    found = check_and_record-records p v first.now hn first.user_id first.proof h;
  }

  -- After a call that succeeds come any calls, and then one with the same user and the same nonce;
  -- none of them reads a clock beyond the first proof's timestamp plus the drift. Then the last
  -- call fails its timestamp tests, or it answers `ReplayDetected`. The protector is valid at the
  -- start, and the clock readings are at least 0 and below 2 ^ 62.
  pub nonce_reuse_detected :
      (cs : List Call) (again : Call)
      → (attempt p first).0 ≡ ok tt
      → All (IsWithin (first.user_id, first.proof.nonce) first.proof.timestamp p.max_drift_secs) cs
      → IsWithin (first.user_id, first.proof.nonce) first.proof.timestamp p.max_drift_secs again
      → again.user_id ≡ first.user_id
      → again.proof.nonce ≡ first.proof.nonce
      → (attempt (run (attempt p first).1 cs) again).0
        ≡ (check_drift p.max_drift_secs again.now again.proof.timestamp >> err replay_detected)
  nonce_reuse_detected cs again h ws (hn', fresh) same_user same_nonce =
      Holds-detects p.max_drift_secs first.proof.timestamp (run (attempt p first).1 cs) again
        (rw (same_user, same_nonce)
          (run-Holds _ first.proof.timestamp p.max_drift_secs (attempt p first).1 cs
            (attempt-records h) ws))
        hn' fresh

  -- What stands between has not run past the window, if the last call is within it.
  IsWithin-of_le :
      (cs : List Call) (again : Call)
      → again.now ≤ℤ first.proof.timestamp +ℤ p.max_drift_secs
      → All (λ c. IsSeconds c.now × (c.now ≤ℤ again.now)) cs
      → All (IsWithin (first.user_id, first.proof.nonce) first.proof.timestamp p.max_drift_secs) cs
  IsWithin-of_le [] again h ws = tt
  IsWithin-of_le (c ∷ cs) again h (w, ws) = ((w.0, omega arith), IsWithin-of_le cs again h ws)

  -- After a call of `check_and_record` that succeeds, a call with the same user and the same proof
  -- does not succeed, whatever calls stand between them. The protector is valid at the start, the
  -- proof's timestamp is an i64, and the clock readings are at least 0 and below 2 ^ 62, of which
  -- those in between are not ahead of the last one.
  pub accepted_once :
      (cs : List Call) (again : Call)
      → (attempt p first).0 ≡ ok tt
      → IsI64 first.proof.timestamp
      → All (λ c. IsSeconds c.now × (c.now ≤ℤ again.now)) cs
      → IsSeconds again.now
      → again.user_id ≡ first.user_id
      → again.proof ≡ first.proof
      → (attempt (run (attempt p first).1 cs) again).0 ≢ ok tt
  accepted_once cs again h ht ws hn' same_user same_proof accepted =
      let q = run (attempt p first).1 cs in
      let same_drift : q.max_drift_secs ≡ p.max_drift_secs =
        run-drift (attempt p first).1 cs
        ∙ unfold attempt in check_and_record-drift p first.now first.user_id first.proof in
      let passed : check_drift p.max_drift_secs again.now first.proof.timestamp ≡ ok tt =
        ap (λ d. check_drift d again.now first.proof.timestamp) (sym same_drift)
        ∙ ap (λ (f : Proof). check_drift q.max_drift_secs again.now f.timestamp) (sym same_proof)
        ∙ check_drift_of_ok q again accepted in
      let fresh = (check_drift-ok_iff _ again.now first.proof.timestamp v.drift hn' ht).0 passed in
      cc (
        nonce_reuse_detected cs again h (IsWithin-of_le cs again fresh.0 ws) (hn', fresh.0)
            same_user (ap (λ (f : Proof). f.nonce) same_proof),
        ap (λ (f : Proof). check_drift p.max_drift_secs again.now f.timestamp) same_proof,
        passed,
        accepted,
      )
