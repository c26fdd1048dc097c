-- ===== src/Examples/Generated.antt =====
-- The proofs under the key `true` of the group of two elements.
use zkp_verifier.Common.{◌≡◌, ◌↔◌, true, [], ◌∷◌, ok}
use zkp_verifier.Common.Int.{pos}
use zkp_verifier.Engine.{public_key, generate_proof_with_time, verify}
use zkp_verifier.Engine.Generated.{Generated, Simulated, generated-Simulated, verify-Generated}
use zkp_verifier.Examples.Group.{two, two-IsGroup, two-IsEncoding}
use zkp_verifier.Examples.Engine.{odd}

verify-Generated_example : (verify two (public_key two true) odd ≡ ok true) ↔ Generated two true odd
verify-Generated_example = verify-Generated two two-IsGroup true two-IsEncoding odd

generated-Simulated_example :
    ((k : two.Scalar) × (generate_proof_with_time two true
          (public_key two true)
          (pos 1000)
          (2 ∷ [])
          k
        ≡ ok odd))
    ↔ Simulated two two-IsGroup (public_key two true) (pos 1000) (2 ∷ []) odd
generated-Simulated_example = generated-Simulated two two-IsGroup true (pos 1000) (2 ∷ []) odd
