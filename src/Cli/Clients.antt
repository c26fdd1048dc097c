-- ===== src/Cli/Clients.antt =====
-- src/bin/user_client.rs and src/bin/kafka_prover.rs: their options.
use zkp_verifier.Common.{
  suc, String, Bool, true, false, Option, List, length, ◌==◌, string_eq, if◌then◌else◌, ◌||◌,
}
use zkp_verifier.Common.Int.{ℤ, pos}
use zkp_verifier.Kafka.{default_kafka_broker}
use zkp_verifier.Cli.{Arm, go, help, Parsed, with_value, parse_loop}
use zkp_verifier.Cli.Options.{number}

pub record UserClientOptions : Type 0 where
  pub addr : String
  pub user_id : String
  pub tamper : Bool
  pub replay : Bool
  pub unregistered : Bool

abbrev pub user_client_defaults : UserClientOptions
user_client_defaults = record {
  addr = "127.0.0.1:8080";
  user_id = "alice_fintech";
  tamper = false;
  replay = false;
  unregistered = false;
}

unfoldable pub user_client_arm : UserClientOptions → String → Option String → Arm UserClientOptions
user_client_arm o a next =
    if a == "--addr"
    then with_value o next (λ v. record o { addr = v })
    else (if a == "--user"
        then with_value o next (λ v. record o { user_id = v })
        else (if a == "--tamper"
            then go (record o { tamper = true })
            else (if a == "--replay"
                then go (record o { replay = true })
                else (if a == "--unregistered"
                    then go (record o { unregistered = true })
                    else (if (a == "--help") || (a == "-h") then help else go o)))))

unfoldable pub user_client_args : List String → Parsed UserClientOptions
unfolding user_client_arm
user_client_args args = parse_loop user_client_arm (suc (length args)) args 1 user_client_defaults

pub record KafkaProverOptions : Type 0 where
  pub broker : String
  pub user_id : String
  pub partition : ℤ
  pub tamper : Bool
  pub replay : Bool
  pub unregistered : Bool

abbrev pub kafka_prover_defaults : KafkaProverOptions
kafka_prover_defaults = record {
  broker = default_kafka_broker;
  user_id = "bob_kafka_user";
  partition = pos 0;
  tamper = false;
  replay = false;
  unregistered = false;
}

unfoldable pub kafka_prover_arm :
    KafkaProverOptions → String → Option String → Arm KafkaProverOptions
unfolding number
kafka_prover_arm o a next =
    if a == "--broker"
    then with_value o next (λ v. record o { broker = v })
    else (if a == "--user"
        then with_value o next (λ v. record o { user_id = v })
        else (if a == "--partition"
            then with_value o next (λ v. record o { partition = number v })
            else (if a == "--tamper"
                then go (record o { tamper = true })
                else (if a == "--replay"
                    then go (record o { replay = true })
                    else (if a == "--unregistered"
                        then go (record o { unregistered = true })
                        else (if (a == "--help") || (a == "-h") then help else go o))))))

unfoldable pub kafka_prover_args : List String → Parsed KafkaProverOptions
unfolding kafka_prover_arm
kafka_prover_args args =
    parse_loop kafka_prover_arm (suc (length args)) args 1 kafka_prover_defaults
