-- ===== src/Replay.antt =====
-- src/replay.rs: `ReplayProtector`. The clock reading `now` is an argument. `check_and_record`
-- reads the clock and tests the timestamp before it takes the lock; what it does under the lock is
-- `record_nonce`, so that other threads can come between the two.
pub mod Window
pub mod Trace
pub mod Once
pub mod Table
pub mod Race
pub mod History
pub mod Refines
use zkp_verifier.Common.{
  ℕ, String, ◌<>◌, Bool, [], Outcome, ok, err, panic, Bytes, length, if◌then◌else◌, string_eq,
  bytes_eq, pair_beq, pair_beq_iff, Eq,
}
use zkp_verifier.Common.Int.{ℤ, pos, ltb_ℤ, leb_ℤ, sub_i64, neg_i64}
use zkp_verifier.Common.Show.{show_ℤ}
use zkp_verifier.HashMap
use zkp_verifier.HashMap.{HashMap}
use zkp_verifier.Proof.{Proof}

abbrev pub default_max_drift_secs : ℤ
default_max_drift_secs = pos 60

pub data ReplayError : Type 0 where
  proof_expired : ℤ → ℤ → ReplayError
  clock_skew_future : ℤ → ReplayError
  replay_detected : ReplayError

unfoldable pub display : ReplayError → String
display (proof_expired age_secs max_allowed) =
    "Proof expired: age "
    <> show_ℤ age_secs
    <> "s exceeds maximum allowed drift of "
    <> show_ℤ max_allowed
    <> "s"
display (clock_skew_future drift_secs) =
    "Future timestamp detected: clock skew of " <> show_ℤ drift_secs <> "s exceeds maximum allowed"
display replay_detected = "Replay attack detected: Nonce has already been used for this user"

-- (user_id, nonce)
abbrev pub Key : Type 0
Key = String × Bytes

instance unfoldable pub key_eq : Eq Key
unfolding string_eq bytes_eq
key_eq = record { beq = pair_beq; beq_iff = pair_beq_iff }

pub record ReplayProtector : Type 0 where
  pub max_drift_secs : ℤ
  pub seen_nonces : HashMap Key ℤ

unfoldable pub new : ℤ → ReplayProtector
new max_drift_secs = record { max_drift_secs = max_drift_secs; seen_nonces = [] }

unfoldable pub default : ReplayProtector
unfolding new
default = new default_max_drift_secs

-- The two tests that precede the lock.
unfoldable pub check_drift : ℤ → ℤ → ℤ → Outcome ReplayError (Unit {0})
check_drift max_drift_secs now timestamp =
    let diff = sub_i64 now timestamp in
    if ltb_ℤ diff (neg_i64 max_drift_secs)
    then err (clock_skew_future (neg_i64 diff))
    else (if ltb_ℤ max_drift_secs diff then err (proof_expired diff max_drift_secs) else ok tt)

-- `|_, &mut ts| ts >= cutoff`
abbrev pub at_least : ℤ → ℤ → Bool
at_least cutoff ts = leb_ℤ cutoff ts

abbrev pub prune : ReplayProtector → ℤ → HashMap Key ℤ
prune p now = HashMap.retain (at_least (sub_i64 now p.max_drift_secs)) p.seen_nonces

-- What happens under the lock.
unfoldable pub record_nonce :
    ReplayProtector → ℤ → String → Proof → Outcome ReplayError (Unit {0}) × ReplayProtector
record_nonce p now user_id proof =
    let nonces = prune p now in
    let key : Key = (user_id, proof.nonce) in
    if HashMap.contains_key key nonces
    then (err replay_detected, record p { seen_nonces = nonces })
    else (ok tt, record p { seen_nonces = HashMap.insert key proof.timestamp nonces })

-- An early return leaves the table alone.
unfoldable pub after_drift :
    Outcome ReplayError (Unit {0})
    → ReplayProtector
    → ℤ
    → String
    → Proof
    → Outcome ReplayError (Unit {0}) × ReplayProtector
after_drift (ok _) p now user_id proof = record_nonce p now user_id proof
after_drift (err e) p now user_id proof = (err e, p)
after_drift panic p now user_id proof = (panic, p)

unfoldable pub check_and_record :
    ReplayProtector → ℤ → String → Proof → Outcome ReplayError (Unit {0}) × ReplayProtector
unfolding after_drift
check_and_record p now user_id proof =
    after_drift (check_drift p.max_drift_secs now proof.timestamp) p now user_id proof

unfoldable pub active_nonces_count : ReplayProtector → ℕ
active_nonces_count p = length p.seen_nonces
