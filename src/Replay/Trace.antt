-- ===== src/Replay/Trace.antt =====
-- Sequences of calls of `check_and_record`, src/replay.rs: the invariant of the nonce table, and
-- what a call remembers.
use zkp_verifier.Common.{
  ◌≡◌, refl, some, String, List, [], ◌∷◌, Outcome, ok, err, ◌>>◌, arith, All, ==_refl, ◌∙◌,
}
use zkp_verifier.Common.Int.{ℤ, ◌+ℤ◌, ◌≤ℤ◌, +ℤ_parts, -ℤ_parts}
use zkp_verifier.HashMap
use zkp_verifier.HashMap.{NodupKeys, get-retain, get-insert, retain-NodupKeys, insert-NodupKeys}
use zkp_verifier.Proof.{Proof}
use zkp_verifier.Replay.{
  ReplayError, replay_detected, Key, key_eq, ReplayProtector, check_drift, prune, record_nonce,
  check_and_record,
}
use zkp_verifier.Replay.Window.{IsSeconds, sub_i64-seconds}

pub record IsValid (p : ReplayProtector) : Type 0 where
  pub distinct : NodupKeys p.seen_nonces
  pub drift : IsSeconds p.max_drift_secs

-- One call, with the clock that it reads.
pub record Call : Type 0 where
  pub now : ℤ
  pub user_id : String
  pub proof : Proof

unfoldable pub attempt : ReplayProtector → Call → Outcome ReplayError (Unit {0}) × ReplayProtector
attempt p c = check_and_record p c.now c.user_id c.proof

unfoldable pub run : ReplayProtector → List Call → ReplayProtector
run p [] = p
run p (c ∷ cs) = run (attempt p c).1 cs

pub check_and_record-drift :
    (p : ReplayProtector) (now : ℤ) (u : String) (proof : Proof)
    → (check_and_record p now u proof).1.max_drift_secs ≡ p.max_drift_secs
unfolding check_and_record record_nonce
check_and_record-drift p now u proof = ground arith

pub run-drift :
    (p : ReplayProtector) (cs : List Call) → (run p cs).max_drift_secs ≡ p.max_drift_secs
unfolding run attempt
run-drift p [] = refl
run-drift p (c ∷ cs) =
    run-drift (attempt p c).1 cs ∙ check_and_record-drift p c.now c.user_id c.proof

-- A call that succeeds has passed the timestamp tests.
pub check_drift_of_ok :
    (p : ReplayProtector) (c : Call)
    → (attempt p c).0 ≡ ok tt
    → check_drift p.max_drift_secs c.now c.proof.timestamp ≡ ok tt
unfolding attempt check_and_record
check_drift_of_ok p c h = ground arith

module _ (p : ReplayProtector) (v : IsValid p) (now : ℤ) (hn : IsSeconds now) where
  prune-get :
      (k : Key) (ts : ℤ)
      → HashMap.get k p.seen_nonces ≡ some ts
      → now ≤ℤ ts +ℤ p.max_drift_secs
      → HashMap.get k (prune p now) ≡ some ts
  prune-get k ts found fresh =
      rw
        (
          get-retain _ k p.seen_nonces v.distinct,
          found,
          sub_i64-seconds now p.max_drift_secs hn v.drift,
        )
        (ground (arith, +ℤ_parts ts p.max_drift_secs, -ℤ_parts now p.max_drift_secs))

  prune-NodupKeys : NodupKeys (prune p now)
  prune-NodupKeys = retain-NodupKeys _ p.seen_nonces v.distinct

  record_nonce-IsValid : (u : String) (proof : Proof) → IsValid (record_nonce p now u proof).1
  unfolding record_nonce
  record_nonce-IsValid u proof = ground (
    arith,
    prune-NodupKeys,
    insert-NodupKeys (u, proof.nonce) proof.timestamp (prune p now) prune-NodupKeys,
  )

  pub check_and_record-IsValid :
      (u : String) (proof : Proof) → IsValid (check_and_record p now u proof).1
  unfolding check_and_record
  check_and_record-IsValid u proof = ground (arith, record_nonce-IsValid u proof)

  -- A nonce stays in the table while its timestamp is not below the cutoff.
  pub check_and_record-remembers :
      (k : Key) (ts : ℤ) (u : String) (proof : Proof)
      → HashMap.get k p.seen_nonces ≡ some ts
      → now ≤ℤ ts +ℤ p.max_drift_secs
      → HashMap.get k (check_and_record p now u proof).1.seen_nonces ≡ some ts
  unfolding check_and_record record_nonce
  check_and_record-remembers k ts u proof found fresh = ground (
    arith,
    prune-get k ts found fresh,
    get-insert k (u, proof.nonce) proof.timestamp (prune p now),
    key_eq.beq_iff (u, proof.nonce) k,
  )

  -- A call that succeeds leaves its nonce in the table.
  pub check_and_record-records :
      (u : String) (proof : Proof)
      → (check_and_record p now u proof).0 ≡ ok tt
      → HashMap.get (u, proof.nonce) (check_and_record p now u proof).1.seen_nonces
        ≡ some proof.timestamp
  unfolding check_and_record record_nonce
  check_and_record-records u proof h = ground (
    arith,
    get-insert (u, proof.nonce) (u, proof.nonce) proof.timestamp (prune p now),
    ==_refl ⦃e = key_eq⦄ (u, proof.nonce),
  )

  -- A nonce that is in the table, and not below the cutoff, is refused.
  pub check_and_record-detects :
      (ts : ℤ) (u : String) (proof : Proof)
      → HashMap.get (u, proof.nonce) p.seen_nonces ≡ some ts
      → now ≤ℤ ts +ℤ p.max_drift_secs
      → (check_and_record p now u proof).0
        ≡ (check_drift p.max_drift_secs now proof.timestamp >> err replay_detected)
  unfolding check_and_record record_nonce
  check_and_record-detects ts u proof found fresh =
      ground (arith, prune-get (u, proof.nonce) ts found fresh)

module _ (k : Key) (ts : ℤ) where
  -- A call whose clock has not passed the end of the timestamp's window.
  abbrev pub IsWithin : ℤ → Call → Type 0
  IsWithin d c = IsSeconds c.now × (c.now ≤ℤ ts +ℤ d)

  -- What a protector holds on to through a sequence of such calls.
  pub record Holds (d : ℤ) (p : ReplayProtector) : Type 0 where
    pub valid : IsValid p
    pub drift_is : p.max_drift_secs ≡ d
    pub found : HashMap.get k p.seen_nonces ≡ some ts

  pub attempt-Holds :
      (d : ℤ) (p : ReplayProtector) (c : Call) → Holds d p → IsWithin d c → Holds d (attempt p c).1
  unfolding attempt
  attempt-Holds d p c h (hn, fresh) = record {
    valid = check_and_record-IsValid p h.valid c.now hn c.user_id c.proof;
    drift_is = check_and_record-drift p c.now c.user_id c.proof ∙ h.drift_is;
    found =
        check_and_record-remembers p h.valid c.now hn k ts c.user_id c.proof h.found
          (rw h.drift_is fresh);
  }

  pub run-Holds :
      (d : ℤ) (p : ReplayProtector) (cs : List Call)
      → Holds d p
      → All (IsWithin d) cs
      → Holds d (run p cs)
  unfolding run
  run-Holds d p [] h _ = h
  run-Holds d p (c ∷ cs) h (w, ws) = run-Holds d (attempt p c).1 cs (attempt-Holds d p c h w) ws
