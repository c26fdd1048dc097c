-- ===== src/Cli/Loop.antt =====
-- src/bin: the loop over the command line against a recursion on the arguments that are left.
use zkp_verifier.Common.{
  ℕ, zero, suc, ◌+◌, ◌<◌, ◌≡◌, ◌≢◌, refl, ap, ◌∙◌, sym, String, Option, none, some, List, [], ◌∷◌,
  length, length-drop, drop, get_elem?, arith,
}
use zkp_verifier.Cli.{
  Arm, go, skip, help, Parsed, options, helped, unfinished, round, next_round, parse_loop,
}

module _ {O : Type 0} (arm : O → String → Option String → Arm O) where
  abbrev pub next_args : List String → Arm O → (O → Parsed O) → (O → Parsed O) → Parsed O
  next_args rest (go o) one two = one o
  next_args rest (skip o) one two = two o
  next_args rest help one two = helped

  -- An argument at a time, or two where the second is the value of the first.
  unfoldable pub parse : List String → O → Parsed O
  parse [] o = options o
  parse (a ∷ []) o = next_args [] (arm o a none) (parse []) options
  parse (a ∷ b ∷ rest) o = next_args rest (arm o a (some b)) (parse (b ∷ rest)) (parse rest)

  get_elem?-drop : (args : List String) (i : ℕ) → get_elem? args i ≡ get_elem? (drop i args) 0
  get_elem?-drop args zero = refl
  get_elem?-drop [] (suc i) = refl
  get_elem?-drop (x ∷ args) (suc i) = get_elem?-drop args i

  drop_suc : (args : List String) (i : ℕ) → drop (i + 1) args ≡ drop 1 (drop i args)
  drop_suc args zero = refl
  drop_suc [] (suc i) = let e : suc i + 1 ≡ suc (suc i) = omega arith in rw e refl
  drop_suc (x ∷ args) (suc i) =
      let e : suc i + 1 ≡ suc (i + 1) = omega arith in rw e (drop_suc args i)

  module _ (args : List String) (i : ℕ) (continue : ℕ → O → Parsed O)
      (ih : (k : ℕ) (o : O) → i < k → i < length args → continue k o ≡ parse (drop k args) o) where
    next_round-next_args :
        (a : Arm O) (rest : List String) (one two : O → Parsed O)
        → i < length args
        → ((o : O) → parse (drop (i + 1) args) o ≡ one o)
        → ((o : O) → parse (drop (i + 1 + 1) args) o ≡ two o)
        → next_round arm i a continue ≡ next_args rest a one two
    next_round-next_args (go o) rest one two lt h k = ih (i + 1) o (omega arith) lt ∙ h o
    next_round-next_args (skip o) rest one two lt h k = ih (i + 1 + 1) o (omega arith) lt ∙ k o
    next_round-next_args help rest one two lt h k = refl

    inside : (a : String) (rest : List String) → drop i args ≡ a ∷ rest → i < length args
    inside a rest e = omega (arith, length-drop i args, ap length e)

    round-parse :
        (xs : List String) (o : O)
        → drop i args ≡ xs
        → round arm args i o (get_elem? args i) continue ≡ parse xs o
    unfolding parse
    round-parse [] o e = rw (get_elem?-drop args i, e) refl
    round-parse (a ∷ []) o e =
        let one : drop (i + 1) args ≡ [] = drop_suc args i ∙ ap (drop 1) e in
        let two : drop (i + 1 + 1) args ≡ [] = drop_suc args (i + 1) ∙ ap (drop 1) one in
        rw (get_elem?-drop args i, e, get_elem?-drop args (i + 1), one)
          (next_round-next_args (arm o a none) [] (parse []) options (inside _ _ e)
            (λ o'. ap (λ ys. parse ys o') one) (λ o'. ap (λ ys. parse ys o') two))
    round-parse (a ∷ b ∷ rest) o e =
        let one : drop (i + 1) args ≡ b ∷ rest = drop_suc args i ∙ ap (drop 1) e in
        let two : drop (i + 1 + 1) args ≡ rest = drop_suc args (i + 1) ∙ ap (drop 1) one in
        rw (get_elem?-drop args i, e, get_elem?-drop args (i + 1), one)
          (next_round-next_args (arm o a (some b)) rest (parse (b ∷ rest)) (parse rest)
            (inside _ _ e) (λ o'. ap (λ ys. parse ys o') one) (λ o'. ap (λ ys. parse ys o') two))

  pub parse_loop-parse :
      (fuel : ℕ) (args : List String) (i : ℕ) (o : O)
      → length args < i + fuel
      → 0 < fuel
      → parse_loop arm fuel args i o ≡ parse (drop i args) o
  unfolding parse_loop
  parse_loop-parse zero args i o h more = absurd (omega arith)
  parse_loop-parse (suc fuel) args i o h more =
      round-parse args i (parse_loop arm fuel args)
        (λ k o' lt within. parse_loop-parse fuel args k o' (omega arith) (omega arith))
        (drop i args) o refl

  next_args-ne-unfinished :
      (rest : List String) (a : Arm O) (one two : O → Parsed O)
      → ((o : O) → one o ≢ unfinished)
      → ((o : O) → two o ≢ unfinished)
      → next_args rest a one two ≢ unfinished
  next_args-ne-unfinished rest (go o) one two h k = h o
  next_args-ne-unfinished rest (skip o) one two h k = k o
  next_args-ne-unfinished rest help one two h k = λ e. cc e

  parse-ne-unfinished : (args : List String) (o : O) → parse args o ≢ unfinished
  unfolding parse
  parse-ne-unfinished [] o = λ e. cc e
  parse-ne-unfinished (a ∷ []) o =
      next_args-ne-unfinished [] (arm o a none) (parse []) options (λ o'. parse-ne-unfinished [] o')
        (λ o' e. cc e)
  parse-ne-unfinished (a ∷ b ∷ rest) o =
      next_args-ne-unfinished rest (arm o a (some b)) (parse (b ∷ rest)) (parse rest)
        (λ o'. parse-ne-unfinished (b ∷ rest) o') (λ o'. parse-ne-unfinished rest o')

  -- The loop over the command line, with one unit of fuel more than there are arguments, as each
  -- program gives it, ends, and is a recursion on the arguments behind the program's name that
  -- takes one or two of them at a time.
  pub parse_loop-ends :
      (args : List String) (o : O)
      → (parse_loop arm (suc (length args)) args 1 o ≡ parse (drop 1 args) o)
        × (parse_loop arm (suc (length args)) args 1 o ≢ unfinished)
  parse_loop-ends args o =
      let same = parse_loop-parse (suc (length args)) args 1 o (omega arith) (omega arith) in
      (same, λ e. parse-ne-unfinished (drop 1 args) o (sym same ∙ e))
