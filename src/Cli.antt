-- ===== src/Cli.antt =====
-- src/bin: the loop over the command line that each program starts with. A program gives what its
-- `match` does with an argument and, if there is one, the argument behind it.
pub mod Number
pub mod Loop
pub mod Options
pub mod Servers
pub mod Clients
pub mod RoundTrip
use zkp_verifier.Common.{ℕ, zero, suc, ◌+◌, String, Option, none, some, List, get_elem?}

-- The next round is at the next argument, or behind the value that was taken, or the program has
-- printed its help and returns.
pub data Arm (O : Type 0) : Type 0 where
  go : O → Arm O
  skip : O → Arm O
  help : Arm O

-- `unfinished` is a loop that is cut short.
pub data Parsed (O : Type 0) : Type 0 where
  options : O → Parsed O
  helped : Parsed O
  unfinished : Parsed O

-- `if i + 1 < args.len() { …; i += 1; }`
abbrev pub with_value : {O : Type 0} → O → Option String → (String → O) → Arm O
with_value o none set = go o
with_value o (some v) set = skip (set v)

module _ {O : Type 0} (arm : O → String → Option String → Arm O) where
  abbrev pub next_round : ℕ → Arm O → (ℕ → O → Parsed O) → Parsed O
  next_round i (go o) continue = continue (i + 1) o
  next_round i (skip o) continue = continue (i + 1 + 1) o
  next_round i help continue = helped

  abbrev pub round : List String → ℕ → O → Option String → (ℕ → O → Parsed O) → Parsed O
  round args i o none continue = options o
  round args i o (some a) continue = next_round i (arm o a (get_elem? args (i + 1))) continue

  -- `while i < args.len() { match args[i] … i += 1; }`
  unfoldable pub parse_loop : ℕ → List String → ℕ → O → Parsed O
  parse_loop zero args i o = unfinished
  parse_loop (suc fuel) args i o = round args i o (get_elem? args i) (parse_loop fuel args)
