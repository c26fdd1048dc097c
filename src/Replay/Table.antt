-- ===== src/Replay/Table.antt =====
-- src/replay.rs: what one call of `check_and_record` answers, and what it leaves in the table.
use zkp_verifier.Common.{
  ◌≡◌, ◌↔◌, Option, none, some, ok, String, arith, length, ◌==◌, if◌then◌else◌, Bool, ◌&&◌, not,
  ◌+◌,
}
use zkp_verifier.Common.Int.{ℤ, ◌-ℤ◌, ◌+ℤ◌, IsI64, leb_ℤ}
use zkp_verifier.HashMap
use zkp_verifier.HashMap.{is_some, length-insert, keep_if, get-retain, get-insert}
use zkp_verifier.Proof.{Proof}
use zkp_verifier.Replay.{
  Key, key_eq, ReplayProtector, prune, at_least, record_nonce, check_and_record,
  active_nonces_count,
}
use zkp_verifier.Replay.Window.{IsSeconds, InWindow, check_drift-ok_iff, sub_i64-seconds}
use zkp_verifier.Replay.Trace.{IsValid}

-- The timestamp that a key stands with, if it is not below the cutoff.
abbrev pub in_window : ℤ → ℤ → ℤ → Bool
in_window d now ts = leb_ℤ now (ts +ℤ d) && leb_ℤ ts (now +ℤ d)

abbrev pub live : ReplayProtector → ℤ → Key → Option ℤ
live p now k = keep_if (at_least (now -ℤ p.max_drift_secs)) (HashMap.get k p.seen_nonces)

module _ (p : ReplayProtector) (v : IsValid p) (now : ℤ) (hn : IsSeconds now) where
  pub get-prune : (k : Key) → HashMap.get k (prune p now) ≡ live p now k
  get-prune k =
      rw (get-retain _ k p.seen_nonces v.distinct, sub_i64-seconds now p.max_drift_secs hn v.drift)

  -- With a valid protector, a clock reading of at least 0 and below 2 ^ 62 and an i64 timestamp, a
  -- call succeeds exactly if the timestamp is within the drift of the clock, on either side, and
  -- the user's nonce does not stand in the table with a timestamp that is not below the cutoff.
  pub check_and_record-ok_iff :
      (u : String) (proof : Proof)
      → IsI64 proof.timestamp
      → ((check_and_record p now u proof).0 ≡ ok tt)
        ↔ (InWindow p.max_drift_secs now proof.timestamp × (live p now (u, proof.nonce) ≡ none))
  unfolding check_and_record record_nonce
  check_and_record-ok_iff u proof ht = ground (
    arith,
    get-prune (u, proof.nonce),
    check_drift-ok_iff p.max_drift_secs now proof.timestamp v.drift hn ht,
  )

  -- With a valid protector, a clock reading of at least 0 and below 2 ^ 62 and an i64 timestamp,
  -- this is the table after a call, key by key: if the timestamp is out of the window, the table is
  -- unchanged; else what is below the cutoff is gone, and the proof's nonce stands with its
  -- timestamp if it was not there already.
  pub get-check_and_record :
      (u : String) (proof : Proof) (k : Key)
      → IsI64 proof.timestamp
      → HashMap.get k (check_and_record p now u proof).1.seen_nonces ≡ (
          if in_window p.max_drift_secs now proof.timestamp
          then (if ((u, proof.nonce) == k) && not (is_some (live p now (u, proof.nonce)))
              then some proof.timestamp
              else live p now k)
          else HashMap.get k p.seen_nonces)
  unfolding check_and_record record_nonce
  get-check_and_record u proof k ht = ground (
    arith,
    get-prune (u, proof.nonce),
    get-prune k,
    get-insert k (u, proof.nonce) proof.timestamp (prune p now),
    check_drift-ok_iff p.max_drift_secs now proof.timestamp v.drift hn ht,
  )

  -- With a valid protector and a clock reading of at least 0 and below 2 ^ 62, the count of nonces
  -- after a call that succeeds is one more than the count after the pruning.
  pub active_nonces_count-check_and_record :
      (u : String) (proof : Proof)
      → (check_and_record p now u proof).0 ≡ ok tt
      → active_nonces_count (check_and_record p now u proof).1 ≡ length (prune p now) + 1
  unfolding check_and_record record_nonce active_nonces_count
  active_nonces_count-check_and_record u proof h =
      ground (arith, length-insert (u, proof.nonce) proof.timestamp (prune p now))
