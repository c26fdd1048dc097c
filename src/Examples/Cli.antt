-- ===== src/Examples/Cli.antt =====
-- Command lines of the programs.
use zkp_verifier.Common.{◌≡◌, ◌≢◌, refl, true, false, List, String, [], ◌∷◌, drop}
use zkp_verifier.Common.Int.{pos, negsuc}
use zkp_verifier.Common.Int.{pos, negsuc}
use zkp_verifier.Common.Show.{show_ℤ}
use zkp_verifier.Cli.Options.{number}
use zkp_verifier.Cli.Number.{IsI32, number-show_ℤ}
use zkp_verifier.Cli.{options, unfinished, parse_loop}
use zkp_verifier.Cli.Options.{number}
use zkp_verifier.Cli.Clients.{
  UserClientOptions, user_client_defaults, user_client_arm, user_client_args,
}
use zkp_verifier.Cli.Loop.{parse, parse_loop-ends}
use zkp_verifier.Cli.RoundTrip.{user_client_line, user_client_args-line}

-- The last option lacks its value, and is passed over.
abbrev line : List String
line = "user_client" ∷ "--tamper" ∷ "--user" ∷ []

parse_loop-ends_example :
    (parse_loop user_client_arm 4 line 1 user_client_defaults
      ≡ parse user_client_arm (drop 1 line) user_client_defaults)
    × (parse_loop user_client_arm 4 line 1 user_client_defaults ≢ unfinished)
parse_loop-ends_example = parse_loop-ends user_client_arm line user_client_defaults

abbrev chosen : UserClientOptions
chosen = record {
  addr = "10.0.0.1:80";
  user_id = "bob";
  tamper = true;
  replay = false;
  unregistered = true;
}

user_client_args-line_example :
    user_client_args (user_client_line "user_client" chosen) ≡ options chosen
user_client_args-line_example = user_client_args-line "user_client" chosen

twelve : number "+12" ≡ pos 12
unfolding number
twelve = refl

overflow : number "2147483648" ≡ pos 0
unfolding number
overflow = refl

least : number "-2147483648" ≡ negsuc 2147483647
unfolding number
least = refl

number-show_ℤ_example :
    (IsI32 (negsuc 11) → number (show_ℤ (negsuc 11)) ≡ negsuc 11)
    × (¬ IsI32 (negsuc 11) → number (show_ℤ (negsuc 11)) ≡ pos 0)
number-show_ℤ_example = number-show_ℤ (negsuc 11)
