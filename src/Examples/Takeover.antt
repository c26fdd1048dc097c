-- ===== src/Examples/Takeover.antt =====
-- Somebody without Alice's key file runs `user_client` as Alice.
use zkp_verifier.Common.{◌≡◌, refl, ◌≢◌, Bool, true, false, some, String, [], ◌∷◌, ok, panic, arith}
use zkp_verifier.Common.Int.{pos}
use zkp_verifier.Protocol.{AuthRequest, AuthResponse}
use zkp_verifier.Engine.{public_key}
use zkp_verifier.Replay.{ReplayProtector}
use zkp_verifier.Storage.{register, get_public_key}
use zkp_verifier.Server.Handle.{welcome}
use zkp_verifier.Client.{Draw, auth_request, send_raw_request}
use zkp_verifier.Client.Login.{to_server}
use zkp_verifier.Programs.{Session}
use zkp_verifier.Programs.Enrolled.{writing, registering}
use zkp_verifier.Programs.Takeover.{user_client_takes_over}
use zkp_verifier.Programs.UserClient.{shown, user_client}
use zkp_verifier.Examples.Group.{point_bytes, two, two-IsGroup, two-IsEncoding}
use zkp_verifier.Examples.Engine.{odd}
use zkp_verifier.Examples.Replay.{minute, minute-IsValid}
use zkp_verifier.Examples.Database.{Rows, lists}
use zkp_verifier.Examples.Sqlite.{lists-IsSql}
use zkp_verifier.Examples.Client.{draw, made_draw, in_time, unseen}
use zkp_verifier.Examples.Disk.{files}

-- The bank knows Alice by other bytes.
abbrev before : Rows
before = ("alice", point_bytes false) ∷ []

abbrev session : Session files two lists
session = record { disk = []; uuid = "0"; fresh_key = true; now = pos 5; opened = ok before }

overwritten : (registering files two lists session before "alice").0 ≡ ok tt
unfolding register zkp_verifier.Common.string_eq
overwritten = refl

file_written : (writing files two lists session before "alice").0 ≢ panic
file_written = λ e. cc e

found_new :
    get_public_key lists two (registering files two lists session before "alice").1 "alice"
    ≡ ok (some true)
unfolding register get_public_key zkp_verifier.Common.string_eq
    zkp_verifier.Engine.public_from_bytes zkp_verifier.Engine.public_to_bytes public_key
found_new = refl

new_key : public_key two true ≢ false
unfolding public_key
new_key = λ e. cc

user_client_takes_over_example :
    ((user_client two files lists
        (record {
          addr = "127.0.0.1:8080";
          user_id = "alice";
          tamper = false;
          replay = false;
          unregistered = false;
        })
        session
        draw
        (ok (record {
          first =
              to_server lists two
                (registering files two lists session before "alice").1
                minute
                (pos 1010);
          again = to_server lists two before minute (pos 1010);
        }))).1
      ≡ shown (welcome "alice" ∷ []) (ok tt))
    × ((old : Bool) (p' : ReplayProtector) (now' : zkp_verifier.Common.Int.ℤ) (d' : Draw two)
          (tamper : Bool) (request : AuthRequest) (r : AuthResponse)
        → public_key two old ≢ public_key two true
        → auth_request two d' "alice" old tamper ≡ ok request
        → send_raw_request
            (to_server lists two (registering files two lists session before "alice").1 p' now')
            request
          ≡ ok r
        → r.success ≢ true)
user_client_takes_over_example =
    user_client_takes_over files two lists session "alice" before refl refl overwritten file_written
      two-IsGroup two-IsEncoding lists-IsSql new_key (some true) found_new minute (pos 1010) draw
      odd made_draw (λ e. cc) minute-IsValid (refl, omega arith) (omega arith, omega arith) in_time
      unseen "127.0.0.1:8080" (to_server lists two before minute (pos 1010))
