-- ===== src/Server/Login.antt =====
-- src/tcp/server.rs: requests one after the other, on any connections, against the one protector
-- that the connections share.
use zkp_verifier.Common.{◌≡◌, refl, ap, ◌∙◌, inl, inr, List, [], ◌∷◌, Outcome, ok, All, subst}
use zkp_verifier.Common.Int.{ℤ, ◌≤ℤ◌, IsI64}
use zkp_verifier.Curve.{Curve}
use zkp_verifier.Database.{Rusqlite}
use zkp_verifier.Protocol.{AuthRequest, AuthResponse}
use zkp_verifier.Proof.{ZkpError}
use zkp_verifier.Replay.{ReplayProtector}
use zkp_verifier.Replay.Window.{IsSeconds}
use zkp_verifier.Replay.Trace.{IsValid, Call, attempt, run}
use zkp_verifier.Replay.Once.{accepted_once}
use zkp_verifier.Server.{handle_request}
use zkp_verifier.Server.Handle.{
  Admits, handle_request-Admits_iff, handle_request-verdict, handle_request-protector,
}

module _ (S : Rusqlite) (C : Curve) where
  -- A request, with the registry and the clock that it meets.
  pub record Visit : Type 0 where
    pub conn : S.Connection
    pub now : ℤ
    pub request : AuthRequest

  abbrev pub visit : ReplayProtector → Visit → Outcome ZkpError AuthResponse × ReplayProtector
  visit p v = handle_request C S v.conn p v.now v.request

  abbrev pub call_of : Visit → Call
  call_of v = record { now = v.now; user_id = v.request.user_id; proof = v.request.proof }

  unfoldable pub serve : ReplayProtector → List Visit → ReplayProtector
  serve p [] = p
  serve p (v ∷ vs) = serve (visit p v).1 vs

  -- To the protector, requests are calls.
  pub serve-run :
      (P : Call → Type 0) (p : ReplayProtector) (vs : List Visit)
      → All (λ v. P (call_of v)) vs
      → (cs : List Call) × (serve p vs ≡ run p cs) × All P cs
  unfolding serve run
  serve-run P p [] h = ([], refl, tt)
  serve-run P p (v ∷ vs) (h, hs) =
      let (cs, same, all) = serve-run P (visit p v).1 vs hs in
      elim (handle_request-protector S C v.conn p v.now v.request) [
        | inl kept ↦ (cs, same ∙ ap (λ q. run q cs) kept, all)
        | inr called ↦ (call_of v ∷ cs, same ∙ ap (λ q. run q cs) called, (h, all))
      ]

  -- A request that is answered with success has made its call of the protector, which succeeded.
  pub admitted-attempt :
      (p : ReplayProtector) (v : Visit)
      → Admits (visit p v).0
      → ((attempt p (call_of v)).0 ≡ ok tt) × ((visit p v).1 ≡ (attempt p (call_of v)).1)
  unfolding attempt
  admitted-attempt p v h =
      let a = (handle_request-Admits_iff S C v.conn p v.now v.request).0 h in
      (
        a.taken,
        ap (λ (r : Outcome ZkpError AuthResponse × ReplayProtector). r.1)
            (handle_request-verdict S C v.conn p v.now v.request a.pk a.registered a.key_matches
              a.taken),
      )

  -- After a request that is answered with success, a request with the same user and the same proof
  -- is not answered with success, whatever requests stand between them and whatever the registry is
  -- at each of them. The protector is valid at the start, the proof's timestamp is an i64, and the
  -- clock readings are at least 0 and below 2 ^ 62, of which those in between are not ahead of the
  -- last one.
  pub admitted_once :
      (p : ReplayProtector)
      → IsValid p
      → (first : Visit) (vs : List Visit) (again : Visit) → IsSeconds first.now
      → IsI64 first.request.proof.timestamp
      → Admits (visit p first).0
      → All (λ v. IsSeconds v.now × (v.now ≤ℤ again.now)) vs
      → IsSeconds again.now
      → again.request.user_id ≡ first.request.user_id
      → again.request.proof ≡ first.request.proof
      → ¬ Admits (visit (serve (visit p first).1 vs) again).0
  admitted_once p valid first vs again hn ht h ws hn' same_user same_proof admitted =
      let (taken, after_first) = admitted-attempt p first h in
      let (cs, served, within) =
        serve-run (λ c. IsSeconds c.now × (c.now ≤ℤ again.now)) (visit p first).1 vs ws in
      let (taken_again, _) = admitted-attempt (serve (visit p first).1 vs) again admitted in
      accepted_once p valid (call_of first) hn cs (call_of again) taken ht within hn' same_user
        same_proof
        (subst (λ q. (attempt q (call_of again)).0 ≡ ok tt)
          (served ∙ ap (λ q. run q cs) after_first) taken_again)
