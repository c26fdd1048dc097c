-- ===== src/Replay/Window.antt =====
-- The timestamp tests of `check_and_record`, src/replay.rs, in terms of true integers.
use zkp_verifier.Common.{◌+◌, ◌^◌, ◌<◌, ◌≡◌, ◌↔◌, Outcome, ok, err, arith, if◌then◌else◌}
use zkp_verifier.Common.Int.{
  ℤ, pos_part, neg_part, ◌+ℤ◌, ◌-ℤ◌, ◌≤ℤ◌, IsI64, sub_i64, wrap_i64_lem, sub_i64_parts, neg_i64,
  neg_i64_parts, +ℤ_parts, -ℤ_parts, eq_of_parts, parts_reduced, ltb_ℤ,
}
use zkp_verifier.Replay.{ReplayError, proof_expired, clock_skew_future, check_drift}

-- A clock reading or a drift: not negative, and below 2 ^ 62 seconds.
abbrev pub IsSeconds : ℤ → Type 0
IsSeconds a = (neg_part a ≡ 0) × (pos_part a < 2 ^ 62)

pub sub_i64-seconds : (a b : ℤ) → IsSeconds a → IsSeconds b → sub_i64 a b ≡ a -ℤ b
unfolding sub_i64
sub_i64-seconds a b ha hb = wrap_i64_lem (a -ℤ b) (ground arith)

-- How a timestamp stands to the window around the clock.
abbrev pub InWindow : ℤ → ℤ → ℤ → Type 0
InWindow d now ts = (now ≤ℤ ts +ℤ d) × (ts ≤ℤ now +ℤ d)

-- If the drift and the clock are at least 0 and below 2 ^ 62 and the timestamp is an i64, the
-- timestamp tests pass exactly if the timestamp is within the drift of the clock, on either side.
pub check_drift-ok_iff :
    (d now ts : ℤ)
    → IsSeconds d
    → IsSeconds now
    → IsI64 ts
    → (check_drift d now ts ≡ ok tt) ↔ InWindow d now ts
unfolding check_drift
check_drift-ok_iff d now ts hd hn ht =
    ground (arith, sub_i64_parts now ts, neg_i64_parts d, +ℤ_parts ts d, +ℤ_parts now d)

-- The tests of `check_and_record` on integers that do not overflow.
pub drift_by_integers : ℤ → ℤ → ℤ → Outcome ReplayError (Unit {0})
drift_by_integers d now ts =
    if ltb_ℤ (now +ℤ d) ts
    then err (clock_skew_future (ts -ℤ now))
    else (if ltb_ℤ (ts +ℤ d) now then err (proof_expired (now -ℤ ts) d) else ok tt)

module _ (d now ts : ℤ) (hd : IsSeconds d) (hn : IsSeconds now) (ht : IsI64 ts) where
  -- `now - ts` fits an i64.
  abbrev pub Fits : Type 0
  Fits = pos_part now + neg_part ts < pos_part ts + neg_part now + 2 ^ 63

  age_lem : Fits → sub_i64 now ts ≡ now -ℤ ts
  age_lem h = eq_of_parts _ _ (omega (arith, sub_i64_parts now ts, -ℤ_parts now ts))

  skew_lem : Fits → neg_i64 (now -ℤ ts) ≡ ts -ℤ now
  skew_lem h = eq_of_parts _ _ (
      grind (
        arith,
        parts_reduced (now -ℤ ts),
        neg_i64_parts (now -ℤ ts),
        -ℤ_parts now ts,
        -ℤ_parts ts now,
      ))

  -- If the drift and the clock are at least 0 and below 2 ^ 62, the timestamp is an i64 and clock
  -- minus timestamp fits an i64, the timestamp tests answer what they answer on integers that do
  -- not overflow, the error's numbers included.
  pub check_drift_exact : Fits → check_drift d now ts ≡ drift_by_integers d now ts
  unfolding check_drift drift_by_integers
  check_drift_exact h =
      rw (age_lem h, skew_lem h)
        (ground
          (arith, neg_i64_parts d, +ℤ_parts now d, +ℤ_parts ts d, -ℤ_parts now ts, -ℤ_parts ts now))

  -- If the drift and the clock are at least 0 and below 2 ^ 62, the timestamp is an i64 and clock
  -- minus timestamp does not fit an i64, so that the subtraction wraps around, the timestamp tests
  -- answer `ClockSkewFuture`.
  pub check_drift_wraps :
      ¬ Fits → check_drift d now ts ≡ err (clock_skew_future (neg_i64 (sub_i64 now ts)))
  unfolding check_drift
  check_drift_wraps h = ground (arith, neg_i64_parts d, sub_i64_parts now ts)
