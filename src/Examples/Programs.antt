-- ===== src/Examples/Programs.antt =====
-- Alice is enrolled by one program and logs in by the other.
use zkp_verifier.Common.{
  ◌≡◌, ◌≢◌, refl, String, Bool, true, false, none, some, List, [], ◌∷◌, Outcome, ok, Bytes, All,
  arith,
}
use zkp_verifier.Common.Int.{pos, ◌+ℤ◌}
use zkp_verifier.Engine.{public_key, generate_proof}
use zkp_verifier.KeyFile.{hex_string}
use zkp_verifier.Storage.{get_public_key, register, is_registered}
use zkp_verifier.Server.Handle.{welcome}
use zkp_verifier.Client.Login.{to_server}
use zkp_verifier.Cli.Servers.{EnrollUserOptions}
use zkp_verifier.Cli.Clients.{UserClientOptions}
use zkp_verifier.Programs.{Session, prepare_key}
use zkp_verifier.Programs.Keys.{prepare_key_again}
use zkp_verifier.Programs.Enroll.{enroll_user}
use zkp_verifier.Programs.Enrolled.{registering}
use zkp_verifier.Protocol.{AuthResponse}
use zkp_verifier.Programs.Replayed.{served_twice, user_client-replay}
use zkp_verifier.Programs.UserClient.{Link, shown, user_client, seen}
use zkp_verifier.Programs.Login.{enroll_user-user_client}
use zkp_verifier.Programs.Lockout.{enroll_user_locks_out}
use zkp_verifier.Examples.Group.{two, scalar_bytes, two-IsGroup, two-IsEncoding}
use zkp_verifier.Examples.Engine.{odd}
use zkp_verifier.Examples.Replay.{minute, minute-IsValid}
use zkp_verifier.Examples.Database.{lists}
use zkp_verifier.Examples.Sqlite.{lists-IsSql}
use zkp_verifier.Examples.Registry.{one_user, found_alice}
use zkp_verifier.Examples.Client.{draw, made_draw, in_time, unseen}
use zkp_verifier.Examples.Disk.{Files, files, files-IsDisk, locked, locked-IsSql}

abbrev enroll_alice : EnrollUserOptions
enroll_alice = record { db_path = "zkp_bank.db"; user_id = some "alice"; list = false }

abbrev first_session : Session files two lists
first_session = record { disk = []; uuid = "0"; fresh_key = true; now = pos 5; opened = ok [] }

abbrev key_files : Files
key_files = (enroll_user files two lists enroll_alice first_session).disk

alice_enrolled : (enroll_user files two lists enroll_alice first_session).result ≡ ok tt
unfolding enroll_user register is_registered zkp_verifier.Common.string_eq
alice_enrolled = refl

alice_in_bank : (enroll_user files two lists enroll_alice first_session).bank ≡ some one_user
unfolding enroll_user register zkp_verifier.Common.string_eq zkp_verifier.Engine.public_to_bytes
    public_key
alice_in_bank = refl

-- What is written to "alice.key".
abbrev key_text : Bytes
key_text = hex_string (scalar_bytes true)

text_read : files.read_to_string key_files "alice.key" ≡ ok key_text
unfolding enroll_user register zkp_verifier.Common.string_eq zkp_verifier.Engine.secret_to_bytes
text_read = refl

alice_key : public_key two true ≢ false
unfolding public_key
alice_key = λ e. cc

abbrev next_session : Session files two lists
next_session = record {
  disk = key_files;
  uuid = "0";
  fresh_key = false;
  now = pos 1000;
  opened = ok one_user;
}

enroll_user-user_client_example :
    (user_client two files lists
      (record {
        addr = "127.0.0.1:8080";
        user_id = "alice";
        tamper = false;
        replay = false;
        unregistered = false;
      })
      next_session
      draw
      (ok (record {
        first = to_server lists two one_user minute (pos 1010);
        again = to_server lists two one_user minute (pos 1010);
      }))).1
    ≡ shown (welcome "alice" ∷ []) (ok tt)
enroll_user-user_client_example =
    enroll_user-user_client files two lists two-IsGroup two-IsEncoding files-IsDisk enroll_alice
      first_session next_session [] one_user refl refl alice_in_bank refl key_text text_read
      lists-IsSql (some true) found_alice alice_enrolled alice_key minute (pos 1010) draw odd
      made_draw (λ e. cc) minute-IsValid (refl, omega arith) (omega arith, omega arith) in_time
      unseen "127.0.0.1:8080" (to_server lists two one_user minute (pos 1010))

-- The database knows Alice by the key `true` and is locked; the new key is `false`.
abbrev locked_session : Session files two locked
locked_session = record {
  disk = [];
  uuid = "0";
  fresh_key = false;
  now = pos 5;
  opened = ok one_user;
}

abbrev lost_text : Bytes
lost_text = hex_string (scalar_bytes false)

lost_bank : (enroll_user files two locked enroll_alice locked_session).bank ≡ some one_user
unfolding enroll_user register
lost_bank = refl

lost_read :
    files.read_to_string (enroll_user files two locked enroll_alice locked_session).disk "alice.key"
    ≡ ok lost_text
unfolding enroll_user register zkp_verifier.Common.string_eq zkp_verifier.Engine.secret_to_bytes
lost_read = refl

still_alice : get_public_key locked two one_user "alice" ≡ ok (some true)
unfolding get_public_key zkp_verifier.Common.string_eq zkp_verifier.Engine.public_from_bytes
still_alice = refl

not_registered : (registering files two locked locked_session one_user "alice").0 ≢ ok tt
unfolding register
not_registered = λ e. cc e

other_key : public_key two false ≢ true
unfolding public_key
other_key = λ e. cc

abbrev later_session : Session files two locked
later_session = record {
  disk = (enroll_user files two locked enroll_alice locked_session).disk;
  uuid = "0";
  fresh_key = true;
  now = pos 1000;
  opened = ok one_user;
}

enroll_user_locks_out_example :
    All
      (λ r. r.success ≢ true)
      (seen two files locked (
        user_client two files locked
          (record {
            addr = "127.0.0.1:8080";
            user_id = "alice";
            tamper = false;
            replay = false;
            unregistered = false;
          })
          later_session
          draw
          (ok (record {
            first = to_server locked two one_user minute (pos 1010);
            again = to_server locked two one_user minute (pos 1010);
          }))))
enroll_user_locks_out_example =
    enroll_user_locks_out files two locked two-IsGroup two-IsEncoding files-IsDisk locked-IsSql
      enroll_alice locked_session later_session one_user one_user refl refl lost_bank refl lost_text
      lost_read true (some true) still_alice refl not_registered other_key still_alice minute minute
      (pos 1010) (pos 1010) draw "127.0.0.1:8080" false false

-- Alice has no key file yet.
alice_made : (prepare_key files two lists first_session "alice" false).key ≡ ok true
unfolding prepare_key register zkp_verifier.Common.string_eq
alice_made = refl

abbrev second_session : Session files two lists
second_session = record {
  disk = (prepare_key files two lists first_session "alice" false).disk;
  uuid = "0";
  fresh_key = false;
  now = pos 1000;
  opened = ok one_user;
}

read_again : files.read_to_string second_session.disk "alice.key" ≡ ok key_text
unfolding prepare_key register zkp_verifier.Common.string_eq zkp_verifier.Engine.secret_to_bytes
read_again = refl

prepare_key_again_example :
    prepare_key files two lists second_session "alice" true
    ≡ record { key = ok true; disk = second_session.disk; bank = none }
prepare_key_again_example =
    prepare_key_again files two two-IsGroup two-IsEncoding files-IsDisk lists first_session "alice"
      false true refl alice_made refl second_session true key_text refl read_again

-- The server lets Alice in, and rejects the packet that it has seen.
abbrev with_replay : UserClientOptions
with_replay = record {
  addr = "127.0.0.1:8080";
  user_id = "alice";
  tamper = false;
  replay = true;
  unregistered = false;
}

abbrev twice : Link
twice = served_twice files two lists minute one_user one_user (pos 1010) (pos 1011) []

abbrev rejected : AuthResponse
rejected = record {
  user_id = "alice";
  success = false;
  message = "Security rejection: Replay attack detected: Nonce has already been used for this user";
}

seen_twice :
    (user_client two files lists with_replay next_session draw (ok twice)).1.responses
    ≡ welcome "alice" ∷ rejected ∷ []
unfolding user_client prepare_key enroll_user register zkp_verifier.Common.string_eq
    zkp_verifier.KeyFile.hex_decode zkp_verifier.KeyFile.Trim.trim hex_string
    zkp_verifier.Engine.secret_to_bytes zkp_verifier.Engine.secret_from_bytes
    zkp_verifier.Client.auth_request generate_proof zkp_verifier.Engine.compute_challenge public_key
    zkp_verifier.Common.Word.i64_to_be_bytes zkp_verifier.Client.send_raw_request
    zkp_verifier.Server.handle_request get_public_key zkp_verifier.Common.Int.neg_i64
    zkp_verifier.Common.Int.sub_i64 zkp_verifier.Engine.public_from_bytes
    zkp_verifier.Engine.public_to_bytes zkp_verifier.Engine.verify zkp_verifier.HashMap.get
    zkp_verifier.HashMap.insert zkp_verifier.HashMap.retain zkp_verifier.Replay.check_and_record
    zkp_verifier.Replay.check_drift zkp_verifier.Replay.display zkp_verifier.Replay.key_eq
    zkp_verifier.Replay.record_nonce zkp_verifier.Server.verdict zkp_verifier.Common.Show.show_ℤ
    zkp_verifier.Server.Login.serve
seen_twice = refl

user_client-replay_example : rejected.success ≢ true
user_client-replay_example =
    user_client-replay files two lists minute one_user one_user (pos 1010) (pos 1011) [] with_replay
      next_session draw (welcome "alice") rejected minute-IsValid (refl, omega arith)
      (refl, omega arith) (omega arith, omega arith) tt seen_twice refl
