-- ===== src/Server/Spent.antt =====
-- src/tcp/server.rs: the nonce of a request whose proof is checked is spent, whatever `verify` answers.
use zkp_verifier.Common.{◌≡◌, ◌≢◌, ◌∙◌, sym, ap, some, List, Outcome, ok, err, panic, All, ◌>>◌}
use zkp_verifier.Curve.{Curve}
use zkp_verifier.Database.{Rusqlite}
use zkp_verifier.Protocol.{AuthResponse}
use zkp_verifier.Proof.{ZkpError}
use zkp_verifier.Engine.{public_to_bytes, verify}
use zkp_verifier.Replay.{ReplayError, replay_detected, ReplayProtector, check_drift}
use zkp_verifier.Replay.Window.{IsSeconds}
use zkp_verifier.Replay.Trace.{IsValid, IsWithin, attempt, run}
use zkp_verifier.Replay.Once.{nonce_reuse_detected}
use zkp_verifier.Storage.{get_public_key}
use zkp_verifier.Server.{verdict}
use zkp_verifier.Server.Handle.{Admits, handle_request-verdict}
use zkp_verifier.Server.Login.{Visit, visit, call_of, serve, serve-run, admitted-attempt}

err-ne-ok :
    (r : Outcome ReplayError (Unit {0})) (e : ReplayError)
    → ◌≢◌ {A = Outcome ReplayError (Unit {0})} (r >> err e) (ok tt)
err-ne-ok (ok _) e = λ h. cc
err-ne-ok (err x) e = λ h. cc
err-ne-ok panic e = λ h. cc

module _ (S : Rusqlite) (C : Curve) where
  -- The clock readings of a later visit do not run past the window of the first one's proof.
  abbrev pub IsInTime : ReplayProtector → Visit S C → Visit S C → Type 0
  IsInTime p first v =
      IsWithin (first.request.user_id, first.request.proof.nonce) first.request.proof.timestamp
        p.max_drift_secs (call_of S C v)

  -- A request that carries its user's registered key and a proof that the protector takes is
  -- answered with the verdict on `verify`. After it, whatever that verdict was, no request of the
  -- same user with the same nonce is answered with success, whatever its proof, whatever requests
  -- stand between them and whatever the registry is at each of them. The protector is valid at the
  -- start, and the clock readings are at least 0 and below 2 ^ 62, of which the later ones are not
  -- beyond the first proof's timestamp plus the drift.
  pub checked_request_spends_nonce :
      (p : ReplayProtector)
      → IsValid p
      → (first : Visit S C) (vs : List (Visit S C)) (again : Visit S C) (pk : C.Point)
      → IsSeconds first.now
      → get_public_key S C first.conn first.request.user_id ≡ ok (some pk)
      → first.request.public_key ≡ public_to_bytes C pk
      → (attempt p (call_of S C first)).0 ≡ ok tt
      → All (IsInTime p first) vs
      → IsInTime p first again
      → again.request.user_id ≡ first.request.user_id
      → again.request.proof.nonce ≡ first.request.proof.nonce
      → ((visit S C p first).0 ≡ verdict first.request.user_id (verify C pk first.request.proof))
        × ¬ Admits (visit S C (serve S C (visit S C p first).1 vs) again).0
  unfolding attempt
  checked_request_spends_nonce p valid first vs again pk hn registered key_matches taken ws w
        same_user same_nonce =
      let answered =
        handle_request-verdict S C first.conn p first.now first.request pk registered key_matches
          taken in
      let (cs, served, within) =
        serve-run S C
          (IsWithin (first.request.user_id, first.request.proof.nonce) first.request.proof.timestamp
            p.max_drift_secs)
          (visit S C p first).1 vs ws in
      let after : serve S C (visit S C p first).1 vs ≡ run (attempt p (call_of S C first)).1 cs =
        served
        ∙ ap (λ (r : Outcome ZkpError AuthResponse × ReplayProtector). run r.1 cs) answered in
      (
        ap (λ (r : Outcome ZkpError AuthResponse × ReplayProtector). r.0) answered,
        λ admitted.
            let (taken_again, _) =
              admitted-attempt S C (serve S C (visit S C p first).1 vs) again admitted in
            err-ne-ok (check_drift p.max_drift_secs again.now again.request.proof.timestamp)
              replay_detected
              (sym (
                  nonce_reuse_detected p valid (call_of S C first) hn cs (call_of S C again) taken
                    within w same_user same_nonce)
                ∙ ap (λ q. (attempt q (call_of S C again)).0) (sym after)
                ∙ taken_again),
      )
