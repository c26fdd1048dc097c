-- ===== src/Cli/Servers.antt =====
-- src/bin/bank_server.rs, src/bin/kafka_verifier.rs and src/bin/enroll_user.rs: their options.
use zkp_verifier.Common.{
  suc, String, Bool, true, false, not, Option, none, some, List, length, ◌==◌, string_eq,
  if◌then◌else◌, ◌||◌,
}
use zkp_verifier.Common.Int.{ℤ, pos}
use zkp_verifier.Kafka.{default_kafka_broker}
use zkp_verifier.Cli.{Arm, go, help, Parsed, with_value, parse_loop}
use zkp_verifier.Cli.Options.{starts_with_dash, number}

pub record BankServerOptions : Type 0 where
  pub addr : String
  pub db_path : String

abbrev pub bank_server_defaults : BankServerOptions
bank_server_defaults = record { addr = "127.0.0.1:8080"; db_path = "zkp_bank.db" }

unfoldable pub bank_server_arm : BankServerOptions → String → Option String → Arm BankServerOptions
unfolding starts_with_dash
bank_server_arm o a next =
    if a == "--addr"
    then with_value o next (λ v. record o { addr = v })
    else (if a == "--db"
        then with_value o next (λ v. record o { db_path = v })
        else (if not (starts_with_dash a) then go (record o { addr = a }) else go o))

unfoldable pub bank_server_args : List String → Parsed BankServerOptions
unfolding bank_server_arm
bank_server_args args = parse_loop bank_server_arm (suc (length args)) args 1 bank_server_defaults

pub record KafkaVerifierOptions : Type 0 where
  pub broker : String
  pub partition : ℤ
  pub db_path : String

abbrev pub kafka_verifier_defaults : KafkaVerifierOptions
kafka_verifier_defaults = record {
  broker = default_kafka_broker;
  partition = pos 0;
  db_path = "zkp_bank.db";
}

unfoldable pub kafka_verifier_arm :
    KafkaVerifierOptions → String → Option String → Arm KafkaVerifierOptions
unfolding number
kafka_verifier_arm o a next =
    if a == "--broker"
    then with_value o next (λ v. record o { broker = v })
    else (if a == "--partition"
        then with_value o next (λ v. record o { partition = number v })
        else (if a == "--db"
            then with_value o next (λ v. record o { db_path = v })
            else (if (a == "--help") || (a == "-h") then help else go o)))

unfoldable pub kafka_verifier_args : List String → Parsed KafkaVerifierOptions
unfolding kafka_verifier_arm
kafka_verifier_args args =
    parse_loop kafka_verifier_arm (suc (length args)) args 1 kafka_verifier_defaults

pub record EnrollUserOptions : Type 0 where
  pub db_path : String
  pub user_id : Option String
  pub list : Bool

abbrev pub enroll_user_defaults : EnrollUserOptions
enroll_user_defaults = record { db_path = "zkp_bank.db"; user_id = none; list = false }

unfoldable pub enroll_user_arm : EnrollUserOptions → String → Option String → Arm EnrollUserOptions
enroll_user_arm o a next =
    if a == "--db"
    then with_value o next (λ v. record o { db_path = v })
    else (if a == "--user"
        then with_value o next (λ v. record o { user_id = some v })
        else (if a == "--list"
            then go (record o { list = true })
            else (if (a == "--help") || (a == "-h") then help else go o)))

unfoldable pub enroll_user_args : List String → Parsed EnrollUserOptions
unfolding enroll_user_arm
enroll_user_args args = parse_loop enroll_user_arm (suc (length args)) args 1 enroll_user_defaults
