-- ===== src/Examples/Wire.antt =====
-- Alice's request as bytes, which arrive one at a time.
use zkp_verifier.Common.{
  ◌≡◌, refl, ap, sym, subst, ◌∙◌, ◌&&◌, Bool, Bool-cases, inl, inr, true, false, List, [], ◌∷◌, ok,
  err, Bytes, ◌==◌, string_eq, bytes_beq, bytes_beq_iff, if◌then◌else◌, map, ok_inj,
}
use zkp_verifier.Common.Int.{pos}
use zkp_verifier.HashMap
use zkp_verifier.Proof.{ZkpError}
use zkp_verifier.Protocol.{AuthRequest, AuthResponse, Format}
use zkp_verifier.Codec.{new, encode}
use zkp_verifier.Codec.Stream.{RoundTrips}
use zkp_verifier.Codec.Chunks.{concat}
use zkp_verifier.Server.{handle_request}
use zkp_verifier.Server.Handle.{welcome}
use zkp_verifier.Client.{send_raw_request}
use zkp_verifier.Client.Wire.{seen, over_wire, send_raw_request-over_wire}
use zkp_verifier.Examples.Group.{two, point_bytes}
use zkp_verifier.Examples.Engine.{odd}
use zkp_verifier.Examples.Replay.{minute}
use zkp_verifier.Examples.Database.{lists}
use zkp_verifier.Examples.Registry.{one_user}
use zkp_verifier.Examples.KafkaFormat.{is_odd, is_odd-eq, &&-parts}

abbrev ours : AuthRequest
ours = record { user_id = "alice"; public_key = point_bytes true; proof = odd }

abbrev is_ours : AuthRequest → Bool
is_ours r = (r.user_id == "alice") && bytes_beq r.public_key (point_bytes true) && is_odd r.proof

abbrev request_format : Format AuthRequest
request_format = record {
  serialize = λ r. if is_ours r then ok (7 ∷ []) else err "unknown request";
  deserialize = λ b. ok ours;
}

is_ours-eq : (r : AuthRequest) → is_ours r ≡ true → r ≡ ours
is_ours-eq r h =
    let (h1, proof) = &&-parts _ _ h in
    let (user, key) = &&-parts _ _ h1 in
    λ i. record {
      user_id = (string_eq.beq_iff r.user_id "alice").0 user i;
      public_key = (bytes_beq_iff r.public_key (point_bytes true)).0 key i;
      proof = is_odd-eq r.proof proof i;
    }

request_format-RoundTrips : RoundTrips request_format
request_format-RoundTrips r payload h = elim (Bool-cases (is_ours r)) [
  | inl known ↦ ap ok (sym (is_ours-eq r known))
  | inr other ↦ cc (rw other at h)
]

abbrev is_welcome : AuthResponse → Bool
is_welcome r = (r.user_id == "alice") && r.success && (r.message == (welcome "alice").message)

abbrev response_format : Format AuthResponse
response_format = record {
  serialize = λ r. if is_welcome r then ok (8 ∷ []) else err "unknown response";
  deserialize = λ b. ok (welcome "alice");
}

is_welcome-eq : (r : AuthResponse) → is_welcome r ≡ true → r ≡ welcome "alice"
is_welcome-eq r h =
    let (h1, message) = &&-parts _ _ h in
    let (user, success) = &&-parts _ _ h1 in
    λ i. record {
      user_id = (string_eq.beq_iff r.user_id "alice").0 user i;
      success = success i;
      message = (string_eq.beq_iff r.message (welcome "alice").message).0 message i;
    }

response_format-RoundTrips : RoundTrips response_format
response_format-RoundTrips r payload h = elim (Bool-cases (is_welcome r)) [
  | inl known ↦ ap ok (sym (is_welcome-eq r known))
  | inr other ↦ cc (rw other at h)
]

abbrev bytewise : Bytes → List Bytes
bytewise = map (λ b. b ∷ [])

concat-bytewise : (b : Bytes) → concat (bytewise b) ≡ b
concat-bytewise [] = refl
concat-bytewise (b ∷ bs) = ap (◌∷◌ b) (concat-bytewise bs)

let_in : (handle_request two lists one_user minute (pos 1010) ours).0 ≡ ok (welcome "alice")
unfolding handle_request zkp_verifier.Storage.get_public_key string_eq
    zkp_verifier.Engine.public_from_bytes zkp_verifier.Engine.public_to_bytes
    zkp_verifier.Replay.check_and_record zkp_verifier.Replay.check_drift
    zkp_verifier.Common.Int.sub_i64 zkp_verifier.Common.Int.neg_i64 zkp_verifier.Replay.record_nonce
    HashMap.get HashMap.retain zkp_verifier.Engine.verify zkp_verifier.Engine.compute_challenge
    zkp_verifier.Common.Word.i64_to_be_bytes
let_in = refl

sent : (encode request_format new ours []).0 ≡ ok tt
unfolding encode string_eq new
sent = refl

answered : (encode response_format new (welcome "alice") []).0 ≡ ok tt
unfolding encode string_eq new
answered = refl

send_raw_request-over_wire_example :
    send_raw_request
      (over_wire lists two one_user minute (pos 1010) request_format response_format bytewise)
      ours
    ≡ seen (handle_request two lists one_user minute (pos 1010) ours).0
send_raw_request-over_wire_example =
    send_raw_request-over_wire lists two one_user minute (pos 1010) request_format response_format
      bytewise request_format-RoundTrips response_format-RoundTrips concat-bytewise ours sent
      (λ response e.
        subst (λ r. (encode response_format new r []).0 ≡ ok tt)
          (ok_inj {E = ZkpError} (sym let_in ∙ e)) answered)
