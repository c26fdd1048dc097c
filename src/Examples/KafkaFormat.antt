-- ===== src/Examples/KafkaFormat.antt =====
-- A format that knows one request.
use zkp_verifier.Common.{
  ◌≡◌, ap, sym, ◌&&◌, Bool, Bool-cases, inl, inr, true, false, [], ◌∷◌, ℕ, ok, err, arith, nat_beq,
  nat_beq_iff, ◌==◌, string_eq, bytes_beq, bytes_beq_iff, if◌then◌else◌,
}
use zkp_verifier.Common.Int.{ℤ, pos, negsuc}
use zkp_verifier.Proof.{Proof}
use zkp_verifier.Protocol.{KafkaAuthRequest, Format}
use zkp_verifier.Codec.Stream.{RoundTrips}
use zkp_verifier.Examples.Group.{point_bytes}
use zkp_verifier.Examples.Engine.{odd}
use zkp_verifier.Examples.Kafka.{request_with}

-- The format of the one request.
abbrev pub is_at : ℕ → ℤ → Bool
is_at m (pos n) = nat_beq n m
is_at m (negsuc n) = false

abbrev pub is_odd : Proof → Bool
is_odd f =
    bytes_beq f.r_point odd.r_point
    && bytes_beq f.s_scalar odd.s_scalar
    && is_at 1000 f.timestamp
    && bytes_beq f.nonce odd.nonce

abbrev is_ours : KafkaAuthRequest → Bool
is_ours r =
    (r.request_id == "r1")
    && (r.user_id == "alice")
    && bytes_beq r.public_key (point_bytes true)
    && is_odd r.proof
    && is_at 1000000 r.timestamp

abbrev pub request_format : Format KafkaAuthRequest
request_format = record {
  serialize = λ r. if is_ours r then ok (2 ∷ []) else err "unknown request";
  deserialize = λ b. ok (request_with odd);
}

is_at-pos : (m : ℕ) (t : ℤ) → is_at m t ≡ true → t ≡ pos m
is_at-pos m (pos n) h = ap pos ((nat_beq_iff n m).0 h)
is_at-pos m (negsuc n) h = cc

pub &&-parts : (a b : Bool) → (a && b) ≡ true → (a ≡ true) × (b ≡ true)
&&-parts a b h = ground arith

pub is_odd-eq : (f : Proof) → is_odd f ≡ true → f ≡ odd
is_odd-eq f h =
    let (h1, nonce) = &&-parts _ _ h in
    let (h2, time) = &&-parts _ _ h1 in
    let (point, scalar) = &&-parts _ _ h2 in
    λ i. record {
      r_point = (bytes_beq_iff f.r_point odd.r_point).0 point i;
      s_scalar = (bytes_beq_iff f.s_scalar odd.s_scalar).0 scalar i;
      timestamp = is_at-pos 1000 f.timestamp time i;
      nonce = (bytes_beq_iff f.nonce odd.nonce).0 nonce i;
    }

is_ours-eq : (r : KafkaAuthRequest) → is_ours r ≡ true → r ≡ request_with odd
is_ours-eq r h =
    let (h1, time) = &&-parts _ _ h in
    let (h2, proof) = &&-parts _ _ h1 in
    let (h3, key) = &&-parts _ _ h2 in
    let (id, user) = &&-parts _ _ h3 in
    λ i. record {
      request_id = (string_eq.beq_iff r.request_id "r1").0 id i;
      user_id = (string_eq.beq_iff r.user_id "alice").0 user i;
      public_key = (bytes_beq_iff r.public_key (point_bytes true)).0 key i;
      proof = is_odd-eq r.proof proof i;
      timestamp = is_at-pos 1000000 r.timestamp time i;
    }

pub request_format-RoundTrips : RoundTrips request_format
request_format-RoundTrips r payload h = elim (Bool-cases (is_ours r)) [
  | inl known ↦ ap ok (sym (is_ours-eq r known))
  | inr other ↦ cc (rw other at h)
]
