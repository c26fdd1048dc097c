-- ===== src/Examples/Engine.antt =====
-- Keys and proofs in the group of two elements.
use zkp_verifier.Common.{
  ◌≡◌, refl, ◌≢◌, ◌⊎◌, ◌↔◌, ◌+◌, ◌^◌, true, false, List, [], ◌∷◌, ok, err, panic, some, Bytes,
  replicate, ◌++◌, arith, All, length,
}
use zkp_verifier.Common.Int.{pos}
use zkp_verifier.Common.Word.{IsByte}
use zkp_verifier.Proof.{Proof}
use zkp_verifier.Engine.{public_key, compute_challenge, generate_proof_with_time, verify, is_fresh}
use zkp_verifier.Engine.Verify.{Accepts, verify-true_iff}
use zkp_verifier.Engine.Complete.{verify-generate_proof}
use zkp_verifier.Engine.Sound.{extract}
use zkp_verifier.Engine.Extract.{extract_key, Reveal, Collide, special_soundness}
use zkp_verifier.Engine.Fresh.{is_fresh_iff}
use zkp_verifier.Engine.Binding.{transcript, Collision, replaced_timestamp_or_nonce}
use zkp_verifier.Replay.Window.{InWindow}
use zkp_verifier.Examples.Group.{
  scalar_bytes, point_bytes, two, two-IsGroup, two-IsEncoding, two-IsHash,
}

-- The proofs of one commitment whose nonces have an even and an odd sum, under the key `true`.
abbrev pub even : Proof
even = record {
  r_point = point_bytes true;
  s_scalar = scalar_bytes true;
  timestamp = pos 1000;
  nonce = 1 ∷ [];
}

abbrev pub odd : Proof
odd = record even { s_scalar = scalar_bytes false; nonce = 2 ∷ [] }

-- The nonce replaced by one that the digest does not tell apart.
abbrev pub third : Proof
third = record even { nonce = 3 ∷ [] }

challenge_even : compute_challenge two true true (pos 1000) (1 ∷ []) ≡ ok false
unfolding compute_challenge zkp_verifier.Common.Word.i64_to_be_bytes
challenge_even = refl

challenge_odd : compute_challenge two true true (pos 1000) (2 ∷ []) ≡ ok true
unfolding compute_challenge zkp_verifier.Common.Word.i64_to_be_bytes
challenge_odd = refl

challenge_third : compute_challenge two true true (pos 1000) (3 ∷ []) ≡ ok false
unfolding compute_challenge zkp_verifier.Common.Word.i64_to_be_bytes
challenge_third = refl

made_even : generate_proof_with_time two true true (pos 1000) (1 ∷ []) true ≡ ok even
unfolding generate_proof_with_time
made_even = rw challenge_even refl

pub made_odd : generate_proof_with_time two true true (pos 1000) (2 ∷ []) true ≡ ok odd
unfolding generate_proof_with_time
made_odd = rw challenge_odd refl

unfoldable accepts_even : Accepts two two-IsGroup true even
accepts_even = record {
  encoded = point_bytes true;
  r = true;
  s = true;
  e = false;
  s_bytes = scalar_bytes true;
  r_encoded = refl;
  r_read = refl;
  s_field = refl;
  s_read = refl;
  challenge = challenge_even;
  equation = refl;
}

unfoldable accepts_odd : Accepts two two-IsGroup true odd
accepts_odd = record {
  encoded = point_bytes true;
  r = true;
  s = false;
  e = true;
  s_bytes = scalar_bytes false;
  r_encoded = refl;
  r_read = refl;
  s_field = refl;
  s_read = refl;
  challenge = challenge_odd;
  equation = refl;
}

unfoldable accepts_third : Accepts two two-IsGroup true third
accepts_third = record {
  encoded = point_bytes true;
  r = true;
  s = true;
  e = false;
  s_bytes = scalar_bytes true;
  r_encoded = refl;
  r_read = refl;
  s_field = refl;
  s_read = refl;
  challenge = challenge_third;
  equation = refl;
}

pub verified_even : verify two true even ≡ ok true
verified_even = (verify-true_iff two two-IsGroup true even).1 accepts_even

verified_odd : verify two true odd ≡ ok true
verified_odd = (verify-true_iff two two-IsGroup true odd).1 accepts_odd

verify-generate_proof_example : verify two (public_key two true) odd ≡ ok true
unfolding public_key
verify-generate_proof_example =
    verify-generate_proof two two-IsGroup two-IsEncoding true true (pos 1000) (2 ∷ []) odd (λ e. cc)
      made_odd

special_soundness_example :
    Reveal two two-IsGroup true even odd
    ⊎ Collide two two-IsGroup two-IsEncoding two-IsHash true even odd refl
special_soundness_example =
    special_soundness two two-IsGroup two-IsEncoding two-IsHash true even odd refl verified_even
      verified_odd (omega arith, omega arith) (omega arith, omega arith) (λ same. cc)

-- The extractor gives the secret key of these two.
revealed : extract_key two two-IsGroup true even odd ≡ ok true
unfolding extract_key compute_challenge zkp_verifier.Common.Word.i64_to_be_bytes extract
revealed = refl

is_fresh_iff_example :
    (is_fresh (pos 1030) even (pos 60) ≡ true)
    ↔ (InWindow (pos 60) (pos 1030) (pos 1000) ⊎ (1030 + 0 ≡ 1000 + 0 + 2 ^ 63))
is_fresh_iff_example =
    is_fresh_iff (pos 1030) (pos 60) even (refl, omega arith) (refl, omega arith)
      (omega arith, omega arith)

replaced_timestamp_or_nonce_example :
    ((pos 1000 ≡ pos 1000) × (even.nonce ≡ third.nonce))
    ⊎ Collision two two-IsHash
        (transcript two true true (pos 1000) (1 ∷ []))
        (transcript two true true (pos 1000) (3 ∷ []))
unfolding accepts_even accepts_third
replaced_timestamp_or_nonce_example =
    replaced_timestamp_or_nonce two two-IsGroup two-IsEncoding two-IsHash true even third (λ e. cc)
      refl refl (omega arith, omega arith) (omega arith, omega arith) accepts_even accepts_third
