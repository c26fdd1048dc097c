-- ===== src/Examples/Client.antt =====
-- Alice's client talks to the server that knows her.
use zkp_verifier.Common.{◌≡◌, refl, ◌≢◌, true, false, none, some, List, [], ◌∷◌, ok, arith}
use zkp_verifier.Common.Int.{pos, ◌+ℤ◌}
use zkp_verifier.HashMap
use zkp_verifier.Protocol.{AuthResponse}
use zkp_verifier.Engine.{generate_proof, public_key}
use zkp_verifier.Server.{verdict}
use zkp_verifier.Replay.Window.{InWindow}
use zkp_verifier.Replay.Table.{live}
use zkp_verifier.Server.Handle.{welcome}
use zkp_verifier.Client.{Draw, authenticate}
use zkp_verifier.Client.Login.{to_server, authenticate-welcome, authenticate-tampered}
use zkp_verifier.Examples.Group.{two, two-IsGroup, two-IsEncoding}
use zkp_verifier.Examples.Engine.{odd, made_odd}
use zkp_verifier.Examples.Replay.{minute, minute-IsValid}
use zkp_verifier.Examples.Database.{lists}
use zkp_verifier.Examples.Registry.{one_user, found_alice}

abbrev pub draw : Draw two
draw = record { now = pos 1000; nonce = 2 ∷ []; k = true }

pub made_draw : generate_proof two true (public_key two true) (pos 1000) (2 ∷ []) true ≡ ok odd
unfolding generate_proof public_key
made_draw = made_odd

pub found_key :
    zkp_verifier.Storage.get_public_key lists two one_user "alice" ≡ ok (some (public_key two true))
unfolding public_key
found_key = found_alice

pub in_time : InWindow (pos 60) (pos 1010) (pos 1000)
unfolding ◌+ℤ◌
in_time = (omega arith, omega arith)

pub unseen : live minute (pos 1010) ("alice", draw.nonce) ≡ none
unfolding HashMap.get
unseen = refl

authenticate-welcome_example :
    authenticate two (to_server lists two one_user minute (pos 1010)) draw "alice" true false
    ≡ ok (welcome "alice")
authenticate-welcome_example =
    authenticate-welcome lists two one_user minute (pos 1010) two-IsGroup two-IsEncoding true
      "alice" draw odd made_draw (λ e. cc) found_key minute-IsValid (refl, omega arith)
      (omega arith, omega arith) in_time unseen

-- What the server answers to the corrupted proof.
abbrev refused : AuthResponse
refused = record {
  user_id = "alice";
  success = false;
  message = "Verification failed: Mathematical proof check did not match public key.";
}

answered_refused :
    authenticate two (to_server lists two one_user minute (pos 1010)) draw "alice" true true
    ≡ ok refused
unfolding authenticate verdict generate_proof zkp_verifier.Engine.compute_challenge public_key
    zkp_verifier.Common.Word.i64_to_be_bytes zkp_verifier.Server.handle_request
    zkp_verifier.Storage.get_public_key zkp_verifier.Common.string_eq
    zkp_verifier.Engine.public_from_bytes zkp_verifier.Engine.public_to_bytes
    zkp_verifier.Replay.check_and_record zkp_verifier.Replay.check_drift
    zkp_verifier.Common.Int.sub_i64 zkp_verifier.Engine.corrupt zkp_verifier.Common.Int.neg_i64
    zkp_verifier.Replay.record_nonce HashMap.get HashMap.retain zkp_verifier.Engine.verify
answered_refused = refl

authenticate-tampered_example : refused.success ≢ true
authenticate-tampered_example =
    authenticate-tampered lists two one_user minute (pos 1010) two-IsGroup two-IsEncoding true
      "alice" draw odd made_draw (λ e. cc) found_key (ground arith) refused answered_refused
