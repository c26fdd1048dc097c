-- ===== src/Engine/Fresh.antt =====
-- src/zkp_core_engine.rs: `is_fresh` on true integers, with its one overflow.
use zkp_verifier.Common.{◌+◌, ◌^◌, ◌<◌, ◌≡◌, ◌↔◌, ◌⊎◌, true, arith}
use zkp_verifier.Common.Int.{
  ℤ, pos, negsuc, sub_i64-IsI64, pos_part, neg_part, IsI64, sub_i64, neg_i64, sub_i64_parts,
  parts_reduced, +ℤ_parts,
}
use zkp_verifier.Proof.{Proof}
use zkp_verifier.Engine.{abs_i64, is_fresh}
use zkp_verifier.Replay.Window.{IsSeconds, InWindow}

abs_i64_parts :
    (a : ℤ)
    → IsI64 a
    → ((neg_part a ≡ 0) × (pos_part (abs_i64 a) ≡ pos_part a) × (neg_part (abs_i64 a) ≡ 0))
      ⊎ ((neg_part a < 2 ^ 63)
          × (pos_part a ≡ 0)
          × (pos_part (abs_i64 a) ≡ neg_part a)
          × (neg_part (abs_i64 a) ≡ 0))
      ⊎ ((neg_part a ≡ 2 ^ 63)
          × (pos_part a ≡ 0)
          × (pos_part (abs_i64 a) ≡ 0)
          × (neg_part (abs_i64 a) ≡ 2 ^ 63))
unfolding abs_i64 neg_i64
abs_i64_parts (pos n) h = ground arith
abs_i64_parts (negsuc n) h = ground arith

-- If the clock and the drift are at least 0 and below 2 ^ 62 and the timestamp is an i64,
-- `is_fresh` answers `true` exactly if the timestamp is within the drift of the clock, on either
-- side, or it is 2 ^ 63 seconds before the clock.
pub is_fresh_iff :
    (now d : ℤ) (proof : Proof)
    → IsSeconds now
    → IsSeconds d
    → IsI64 proof.timestamp
    → (is_fresh now proof d ≡ true) ↔ (
        InWindow d now proof.timestamp
        ⊎ (pos_part now + neg_part proof.timestamp
            ≡ pos_part proof.timestamp + neg_part now + 2 ^ 63))
unfolding is_fresh
is_fresh_iff now d proof hn hd ht = ground (
  arith,
  parts_reduced (sub_i64 now proof.timestamp),
  abs_i64_parts (sub_i64 now proof.timestamp) (sub_i64-IsI64 now proof.timestamp),
  sub_i64_parts now proof.timestamp,
  +ℤ_parts now d,
  +ℤ_parts proof.timestamp d,
)
