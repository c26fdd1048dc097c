-- ===== src/Examples/Server.antt =====
-- The server over the group of two elements and a registry that knows Alice.
use zkp_verifier.Common.{
  ◌≡◌, refl, ◌≢◌, ◌⊎◌, ◌↔◌, Bool, true, false, String, Option, none, some, List, [], ◌∷◌, Outcome,
  ok, err, map, arith,
}
use zkp_verifier.Common.Int.{ℤ, IsI64, ◌+ℤ◌, ◌≤ℤ◌, pos, sub_i64, neg_i64}
use zkp_verifier.HashMap
use zkp_verifier.Proof.{Proof}
use zkp_verifier.Protocol.{AuthRequest, KafkaAuthRequest}
use zkp_verifier.Engine.{public_to_bytes, verify}
use zkp_verifier.Replay.{new, ReplayProtector, check_and_record, check_drift, record_nonce}
use zkp_verifier.Replay.Trace.{attempt}
use zkp_verifier.Server.{verdict, handle_request, handle_connection, Arrival}
use zkp_verifier.Server.Handle.{Admits, Authentic, handle_request-Admits_iff}
use zkp_verifier.Server.Login.{Visit, visit, serve}
use zkp_verifier.Server.Spent.{checked_request_spends_nonce}
use zkp_verifier.Server.System.{Bank, serve_request, tick, serve as serve_step, here, next}
use zkp_verifier.Server.Guarded.{Distinct}
use zkp_verifier.Server.Invariant.{opened, Reaches-Distinct}
use zkp_verifier.Kafka.Verifier.{decide}
use zkp_verifier.Replay.Window.{InWindow}
use zkp_verifier.Kafka.Across.{replayed_across}
use zkp_verifier.Kafka.Agree.{kafka_success, Agree, to_auth_request, decide-handle_request}
use zkp_verifier.Examples.Group.{point_bytes, two}
use zkp_verifier.Examples.Engine.{even, odd, verified_even}
use zkp_verifier.Examples.Replay.{minute, minute-IsValid}
use zkp_verifier.Examples.Database.{lists}
use zkp_verifier.Examples.Registry.{one_user, found_alice}

abbrev request_of : Proof → AuthRequest
request_of proof = record { user_id = "alice"; public_key = point_bytes true; proof = proof }

-- The key in the request is the registered one.
same_key : point_bytes true ≡ public_to_bytes two true
unfolding public_to_bytes
same_key = refl

taken_even : (check_and_record minute (pos 1000) "alice" even).0 ≡ ok tt
unfolding check_and_record record_nonce check_drift sub_i64 neg_i64 HashMap.get HashMap.retain
taken_even = refl

even_Authentic : Authentic lists two one_user minute (pos 1000) (request_of even)
even_Authentic = record {
  pk = true;
  registered = found_alice;
  key_matches = same_key;
  taken = taken_even;
  proven = verified_even;
}

admitted_even : Admits (handle_request two lists one_user minute (pos 1000) (request_of even)).0
admitted_even =
    (handle_request-Admits_iff lists two one_user minute (pos 1000) (request_of even)).1
      even_Authentic

handle_request-Admits_iff_example :
    Admits (handle_request two lists one_user minute (pos 1000) (request_of odd)).0
    ↔ Authentic lists two one_user minute (pos 1000) (request_of odd)
handle_request-Admits_iff_example =
    handle_request-Admits_iff lists two one_user minute (pos 1000) (request_of odd)

abbrev visit_at : ℤ → Proof → Visit lists two
visit_at now proof = record { conn = one_user; now = now; request = request_of proof }

-- A proof with Alice's nonce and a response of no use.
abbrev forged : Proof
forged = record even { s_scalar = point_bytes false }

taken_forged : (check_and_record minute (pos 1000) "alice" forged).0 ≡ ok tt
unfolding check_and_record record_nonce check_drift sub_i64 neg_i64 HashMap.get HashMap.retain
taken_forged = refl

unspent : pos 1010 ≤ℤ forged.timestamp +ℤ minute.max_drift_secs
unfolding ◌+ℤ◌
unspent = omega arith

-- The forged request comes first, and Alice's own is refused.
checked_request_spends_nonce_example :
    ((visit lists two minute (visit_at (pos 1000) forged)).0
      ≡ verdict "alice" (verify two true forged))
    × ¬ Admits
        (visit lists two
          (visit lists two minute (visit_at (pos 1000) forged)).1
          (visit_at (pos 1010) even)).0
unfolding serve attempt
checked_request_spends_nonce_example =
    checked_request_spends_nonce lists two minute minute-IsValid (visit_at (pos 1000) forged) []
      (visit_at (pos 1010) even) true (refl, omega arith) found_alice same_key taken_forged tt
      ((refl, omega arith), unspent) refl refl

abbrev arrivals : List (Arrival two lists)
arrivals =
    record {
      now = pos 1000;
      conn = one_user;
      others = [];
      message = ok (request_of even);
      sent = ok tt;
    }
    ∷ record {
      now = pos 1001;
      conn = one_user;
      others = [];
      message = ok (request_of even);
      sent = ok tt;
    }
    ∷ []

ends_well : (handle_connection two lists minute arrivals).result ≡ ok tt
unfolding handle_connection handle_request zkp_verifier.Storage.get_public_key
    zkp_verifier.Common.string_eq zkp_verifier.Engine.public_from_bytes public_to_bytes
    check_and_record check_drift sub_i64 neg_i64 zkp_verifier.Replay.Trace.run record_nonce
    HashMap.get HashMap.retain verify zkp_verifier.Engine.compute_challenge
    zkp_verifier.Common.Word.i64_to_be_bytes HashMap.insert zkp_verifier.Replay.key_eq
ends_well = refl

abbrev kafka_request : KafkaAuthRequest
kafka_request = record {
  request_id = "r1";
  user_id = "alice";
  public_key = point_bytes true;
  proof = even;
  timestamp = pos 1000000;
}

decide-handle_request_example :
    Agree
      (decide two lists one_user minute (pos 1000) kafka_request)
      (handle_request two lists one_user minute (pos 1000) (to_auth_request kafka_request))
decide-handle_request_example =
    decide-handle_request lists two one_user minute (pos 1000) kafka_request

-- A bank that has let Alice in once, and is asked again.
abbrev after_even : Bank
after_even = serve_request lists two one_user (request_of even) (opened (pos 60) (pos 1000))

abbrev asked_again : Bank
asked_again =
    serve_request lists two one_user (request_of even) (record after_even { clock = pos 1010 })

let_in : after_even.admitted ≡ ("alice", even) ∷ []
unfolding serve_request handle_request zkp_verifier.Storage.get_public_key
    zkp_verifier.Common.string_eq zkp_verifier.Engine.public_from_bytes public_to_bytes
    check_and_record check_drift sub_i64 neg_i64 zkp_verifier.Replay.new record_nonce HashMap.get
    HashMap.retain verify zkp_verifier.Engine.compute_challenge
    zkp_verifier.Common.Word.i64_to_be_bytes
let_in = refl

even_time : IsI64 even.timestamp
even_time = (omega arith, omega arith)

Reaches-Distinct_example : Distinct asked_again.admitted
unfolding serve_request
Reaches-Distinct_example =
    Reaches-Distinct lists two (pos 60) (pos 1000) asked_again (refl, omega arith)
      (refl, omega arith)
      (next
        (next
          (next here (serve_step (opened (pos 60) (pos 1000)) one_user (request_of even) even_time))
          (tick after_even (pos 1010) (omega arith) (refl, omega arith)))
        (serve_step (record after_even { clock = pos 1010 }) one_user (request_of even) even_time))

within : InWindow (pos 60) (pos 1010) even.timestamp
unfolding ◌+ℤ◌
within = (omega arith, omega arith)

replayed_across_example :
    kafka_success (decide two lists one_user (new (pos 60)) (pos 1010) kafka_request).0 ≡ some true
replayed_across_example =
    replayed_across lists two one_user minute (pos 1000) kafka_request (pos 60) (pos 1010)
      (refl, omega arith) (refl, omega arith) even_time within admitted_even
