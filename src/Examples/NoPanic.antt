-- ===== src/Examples/NoPanic.antt =====
-- The list of the bank's users.
use zkp_verifier.Common.{
  ◌≡◌, ◌≢◌, refl, String, Bool, true, Option, none, some, ok, panic, Bytes, arith, [],
}
use zkp_verifier.Common.Int.{ℤ, pos}
use zkp_verifier.Engine.{public_from_bytes}
use zkp_verifier.Storage.{decode_key, get_public_key, list_users, register, is_registered}
use zkp_verifier.Cli.Servers.{EnrollUserOptions}
use zkp_verifier.Programs.{Session}
use zkp_verifier.Programs.Enroll.{enroll_user}
use zkp_verifier.Programs.NoPanic.{enroll_user-ne-panic}
use zkp_verifier.Examples.Group.{two}
use zkp_verifier.Examples.Database.{Rows, row, lists}
use zkp_verifier.Examples.Sqlite.{lists-IsSql}
use zkp_verifier.Examples.Registry.{one_user}
use zkp_verifier.Examples.Disk.{files}

decode_ends : (o : Option Bytes) → decode_key two o ≢ panic
unfolding decode_key public_from_bytes
decode_ends none = λ e. cc e
decode_ends (some b) = ground arith

lookup_ends : (c : Rows) (u : String) → get_public_key lists two c u ≢ panic
unfolding get_public_key
lookup_ends c u = decode_ends (row c u)

list_ends : (c : Rows) → list_users lists c ≢ panic
unfolding list_users
list_ends c = λ e. cc e

register_ends :
    (c : Rows) (u : String) (pk : Bool) (now : ℤ) → (register lists two c u pk now).0 ≢ panic
unfolding register zkp_verifier.Common.string_eq
register_ends c u pk now = λ e. cc e

exists_ends : (c : Rows) (u : String) → is_registered lists c u ≢ panic
unfolding is_registered
exists_ends c u = λ e. cc e

abbrev list_all : EnrollUserOptions
list_all = record { db_path = "zkp_bank.db"; user_id = none; list = true }

abbrev session : Session files two lists
session = record { disk = []; uuid = "0"; fresh_key = true; now = pos 5; opened = ok one_user }

enroll_user-ne-panic_example : (enroll_user files two lists list_all session).result ≢ panic
enroll_user-ne-panic_example =
    enroll_user-ne-panic files two lists lists-IsSql lookup_ends list_ends register_ends exists_ends
      (λ d path text e. cc e) list_all session (λ e. cc e)
