-- ===== src/Examples/RegistryMap.antt =====
-- A registry in memory, in which Alice registers and is removed.
use zkp_verifier.Common.{◌≡◌, refl, true, string_eq, none, List, [], ◌∷◌, ok}
use zkp_verifier.Common.Int.{pos}
use zkp_verifier.Storage.{in_memory}
use zkp_verifier.Storage.Map.{
  Op, registers, removes, looks_up, counts, lists as lists_ids, Meets, history,
}
use zkp_verifier.Storage.Map.Refines.{history-in_memory}
use zkp_verifier.Examples.Group.{two, two-IsGroup, two-IsEncoding}
use zkp_verifier.Examples.Database.{lists}
use zkp_verifier.Examples.Sqlite.{lists-IsSqlite}

abbrev calls : List (Op two)
calls =
    registers "alice" true (pos 5)
    ∷ looks_up "alice"
    ∷ counts
    ∷ removes "alice"
    ∷ looks_up "alice"
    ∷ lists_ids
    ∷ []

in_memory_empty : in_memory lists ≡ ok []
unfolding in_memory string_eq
in_memory_empty = refl

history-in_memory_example : Meets two (λ _. none) (history two lists [] calls)
history-in_memory_example =
    history-in_memory lists two lists-IsSqlite two-IsGroup two-IsEncoding [] calls in_memory_empty
      ((λ e. cc), (tt, (tt, (tt, (tt, (tt, tt))))))
