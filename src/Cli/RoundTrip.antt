-- ===== src/Cli/RoundTrip.antt =====
-- src/bin/user_client.rs and src/bin/bank_server.rs: a command line that spells out all options.
use zkp_verifier.Common.{
  suc, ◌≡◌, refl, ◌∙◌, String, Bool, true, false, List, [], ◌∷◌, ◌++◌, string_eq, arith, length,
}
use zkp_verifier.Cli.{options}
use zkp_verifier.Cli.Loop.{parse, parse_loop-parse}
use zkp_verifier.Cli.Clients.{
  UserClientOptions, user_client_defaults, user_client_arm, user_client_args,
}

abbrev pub flag : Bool → String → List String
flag true name = name ∷ []
flag false name = []

abbrev pub flags : UserClientOptions → List String
flags o =
    flag o.tamper "--tamper" ++ (flag o.replay "--replay" ++ flag o.unregistered "--unregistered")

-- The command line of these options, behind the name of the program.
abbrev pub user_client_line : String → UserClientOptions → List String
user_client_line program o = program ∷ "--addr" ∷ o.addr ∷ "--user" ∷ o.user_id ∷ flags o

flags-parse :
    (addr user_id : String) (tamper replay unregistered : Bool)
    → let o : UserClientOptions = record {
      addr = addr;
      user_id = user_id;
      tamper = tamper;
      replay = replay;
      unregistered = unregistered;
    } in
      parse user_client_arm
        (flags o)
        (record user_client_defaults { addr = addr; user_id = user_id })
      ≡ options o
unfolding parse user_client_arm string_eq
flags-parse a u true true true = refl
flags-parse a u true true false = refl
flags-parse a u true false true = refl
flags-parse a u true false false = refl
flags-parse a u false true true = refl
flags-parse a u false true false = refl
flags-parse a u false false true = refl
flags-parse a u false false false = refl

-- A command line of `user_client` that spells out all of its options is read back as these options.
pub user_client_args-line :
    (program : String) (o : UserClientOptions)
    → user_client_args (user_client_line program o) ≡ options o
unfolding user_client_args
user_client_args-line program o =
    parse_loop-parse user_client_arm (suc (length (user_client_line program o)))
      (user_client_line program o) 1 user_client_defaults (omega arith) (omega arith)
    ∙ unfold parse user_client_arm string_eq in
      flags-parse o.addr o.user_id o.tamper o.replay o.unregistered
