-- ===== src/Examples/Registry.antt =====
-- The registry on a database of lists.
use zkp_verifier.Common.{◌≡◌, refl, true, none, some, [], ◌∷◌, ok, string_eq}
use zkp_verifier.Common.Int.{pos}
use zkp_verifier.Storage.{get_public_key, register, remove, is_registered}
use zkp_verifier.Examples.Database.{Rows, lists}
use zkp_verifier.Examples.Group.{point_bytes, two}

-- Alice has the key `true`.
abbrev pub one_user : Rows
one_user = ("alice", point_bytes true) ∷ []

pub found_alice : get_public_key lists two one_user "alice" ≡ ok (some true)
unfolding get_public_key zkp_verifier.Engine.public_from_bytes string_eq
found_alice = refl

found_nobody : get_public_key lists two [] "alice" ≡ ok none
unfolding get_public_key
found_nobody = refl

registered_alice : (register lists two [] "alice" true (pos 5)).0 ≡ ok tt
unfolding register string_eq
registered_alice = refl

after_registration :
    get_public_key lists two (register lists two [] "alice" true (pos 5)).1 "alice" ≡ ok (some true)
unfolding register get_public_key zkp_verifier.Engine.public_from_bytes
    zkp_verifier.Engine.public_to_bytes string_eq
after_registration = refl

removed_alice : (remove lists one_user "alice").0 ≡ ok true
unfolding remove string_eq
removed_alice = refl

after_removal : get_public_key lists two (remove lists one_user "alice").1 "alice" ≡ ok none
unfolding remove get_public_key string_eq
after_removal = refl

is_registered_alice : is_registered lists one_user "alice" ≡ ok true
unfolding is_registered string_eq
is_registered_alice = refl
