-- ===== src/Server/Guarded.antt =====
-- src/replay.rs, as src/tcp/server.rs relies on it: what the protector holds of a proof that was
-- admitted, and that the proof is not admitted again.
use zkp_verifier.Common.{◌≡◌, ◌≢◌, ap, sym, ◌∙◌, subst, String, List, [], ◌∷◌, ok, All}
use zkp_verifier.Common.Int.{ℤ, ◌≤ℤ◌, ◌+ℤ◌, IsI64}
use zkp_verifier.Proof.{Proof}
use zkp_verifier.Replay.{ReplayProtector, check_drift}
use zkp_verifier.Replay.Window.{IsSeconds, check_drift-ok_iff}
use zkp_verifier.Replay.Trace.{IsValid, Call, attempt, Holds, attempt-Holds, check_drift_of_ok}
use zkp_verifier.Replay.Once.{Holds-detects}

abbrev pub Distinct : List (String × Proof) → Type 0
Distinct [] = Unit
Distinct (x ∷ xs) = All (λ y. y ≢ x) xs × Distinct xs

-- What the protector holds of an admission while its proof is within the window.
abbrev pub Guarded : ℤ → ReplayProtector → ℤ → String × Proof → Type 0
Guarded d p clock (u, f) =
    IsI64 f.timestamp × (clock ≤ℤ f.timestamp +ℤ d → Holds (u, f.nonce) f.timestamp d p)

module _ (d : ℤ) (p : ReplayProtector) (valid : IsValid p) (drift_is : p.max_drift_secs ≡ d)
    (clock : ℤ) (hn : IsSeconds clock) where
  -- Who was let in with a proof is not let in with it again.
  blocked :
      (u : String) (f : Proof)
      → Guarded d p clock (u, f)
      → (attempt p (record { now = clock; user_id = u; proof = f })).0 ≢ ok tt
  blocked u f (ht, held) taken =
      let c : Call = record { now = clock; user_id = u; proof = f } in
      let passed : check_drift d clock f.timestamp ≡ ok tt =
        ap (λ e. check_drift e clock f.timestamp) (sym drift_is) ∙ check_drift_of_ok p c taken in
      let fresh =
        (check_drift-ok_iff d clock f.timestamp (rw (← drift_is) valid.drift) hn ht).0 passed in
      cc (Holds-detects d f.timestamp p c (held fresh.0) hn fresh.0, passed, taken)

  pub Guarded-ne :
      (u : String) (f : Proof)
      → (attempt p (record { now = clock; user_id = u; proof = f })).0 ≡ ok tt
      → (log : List (String × Proof)) → All (Guarded d p clock) log
      → All (λ y. y ≢ (u, f)) log
  Guarded-ne u f taken [] h = tt
  Guarded-ne u f taken ((v, g) ∷ log) (h, hs) =
      (λ same. blocked u f (subst (Guarded d p clock) same h) taken, Guarded-ne u f taken log hs)

  pub attempt-Guarded :
      (c : Call) (x : String × Proof)
      → c.now ≡ clock
      → Guarded d p clock x
      → Guarded d (attempt p c).1 clock x
  attempt-Guarded c (u, f) now_is (ht, held) = (
    ht,
    λ fresh.
        attempt-Holds (u, f.nonce) f.timestamp d p c (held fresh) (rw now_is hn, rw now_is fresh),
  )
