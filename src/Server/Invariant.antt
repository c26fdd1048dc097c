-- ===== src/Server/Invariant.antt =====
-- src/tcp/server.rs: what holds of the system of tasks in every state that it reaches.
use zkp_verifier.Common.{
  ◌≡◌, ◌≢◌, refl, sym, ◌∙◌, subst, inl, inr, String, List, [], ◌∷◌, Outcome, ok, err, panic, All,
  arith, Bool-cases,
}
use zkp_verifier.Common.Int.{ℤ, ◌≤ℤ◌, IsI64}
use zkp_verifier.Curve.{Curve}
use zkp_verifier.Database.{Rusqlite}
use zkp_verifier.Proof.{ZkpError, Proof}
use zkp_verifier.Protocol.{AuthRequest, AuthResponse}
use zkp_verifier.Replay.{Key, ReplayProtector, new}
use zkp_verifier.Replay.Window.{IsSeconds}
use zkp_verifier.Replay.Trace.{
  IsValid, Call, attempt, Holds, check_and_record-IsValid, check_and_record-drift,
}
use zkp_verifier.Replay.Once.{attempt-records}
use zkp_verifier.Server.{handle_request}
use zkp_verifier.Server.Handle.{Admits, handle_request-protector}
use zkp_verifier.Server.Login.{Visit, call_of, admitted-attempt}
use zkp_verifier.Server.System.{
  Bank, log_answer, serve_request, Step, tick, serve, Reaches, here, next,
}
use zkp_verifier.Server.Guarded.{Distinct, Guarded, Guarded-ne, attempt-Guarded}

-- The state of the bank: the log has no entry twice, and the protector guards each.
pub record IsSafe (d : ℤ) (b : Bank) : Type 0 where
  pub valid : IsValid b.protector
  pub drift_is : b.protector.max_drift_secs ≡ d
  pub clock_ok : IsSeconds b.clock
  pub distinct : Distinct b.admitted
  pub guarded : All (Guarded d b.protector b.clock) b.admitted

All-map_lem :
    (P Q : String × Proof → Type 0) (xs : List (String × Proof))
    → ((x : String × Proof) → P x → Q x)
    → All P xs
    → All Q xs
All-map_lem P Q [] f h = tt
All-map_lem P Q (x ∷ xs) f (h, hs) = (f x h, All-map_lem P Q xs f hs)

-- An entry is added to the log only if the request was admitted.
log_answer-Distinct :
    (P : String × Proof → Type 0) (request : AuthRequest) (w : Outcome ZkpError AuthResponse)
    (log : List (String × Proof))
    → Distinct log
    → All P log
    → (Admits w
        → P (request.user_id, request.proof) × All (λ y. y ≢ (request.user_id, request.proof)) log)
    → Distinct (log_answer request w log) × All P (log_answer request w log)
log_answer-Distinct P request (err e) log distinct all new = (distinct, all)
log_answer-Distinct P request panic log distinct all new = (distinct, all)
log_answer-Distinct P request (ok response) log distinct all new =
    elim (Bool-cases response.success) [
      | inl yes_in ↦
          let (guarded, differ) = new yes_in in rw yes_in ((differ, distinct), (guarded, all))
      | inr out ↦ rw out (distinct, all)
    ]

module _ (S : Rusqlite) (C : Curve) (d : ℤ) where
  module _ (b : Bank) (safe : IsSafe d b) (conn : S.Connection) (request : AuthRequest) where
    abbrev here_now : Visit S C
    here_now = record { conn = conn; now = b.clock; request = request }

    abbrev after : ReplayProtector
    after = (handle_request C S conn b.protector b.clock request).1

    -- The protector is as it was, or as a call leaves it.
    after-P :
        (P : ReplayProtector → Type 0)
        → P b.protector
        → P (attempt b.protector (call_of S C here_now)).1
        → P after
    after-P P same called = elim (handle_request-protector S C conn b.protector b.clock request) [
      | inl e ↦ subst P (sym e) same
      | inr e ↦ subst P (sym e) called
    ]

    abbrev this_call : Call
    this_call = call_of S C here_now

    after-IsValid : IsValid after
    unfolding attempt
    after-IsValid = after-P IsValid safe.valid (
        check_and_record-IsValid b.protector safe.valid b.clock safe.clock_ok request.user_id
          request.proof)

    after-drift : after.max_drift_secs ≡ d
    unfolding attempt
    after-drift =
        after-P (λ q. q.max_drift_secs ≡ d) safe.drift_is
          (check_and_record-drift b.protector b.clock request.user_id request.proof ∙ safe.drift_is)

    after-Guarded : All (Guarded d after b.clock) b.admitted
    after-Guarded =
        after-P (λ q. All (Guarded d q b.clock) b.admitted) safe.guarded
          (All-map_lem (Guarded d b.protector b.clock)
            (Guarded d (attempt b.protector this_call).1 b.clock) b.admitted
            (λ x.
              attempt-Guarded d b.protector safe.valid safe.drift_is b.clock safe.clock_ok this_call
                x refl)
            safe.guarded)

    new_entry :
        IsI64 request.proof.timestamp
        → Admits (handle_request C S conn b.protector b.clock request).0
        → Guarded d after b.clock (request.user_id, request.proof)
          × All (λ y. y ≢ (request.user_id, request.proof)) b.admitted
    new_entry ht admitted =
        let (taken, same) = admitted-attempt S C b.protector here_now admitted in
        let key : Key = (request.user_id, request.proof.nonce) in
        let ts = request.proof.timestamp in
        let held = attempt-records b.protector safe.valid this_call safe.clock_ok taken in
        (
          (
            ht,
            λ fresh.
                subst (Holds key ts d) (sym same) (
                  subst (λ e. Holds key ts e (attempt b.protector this_call).1) safe.drift_is held),
          ),
          Guarded-ne d b.protector safe.valid safe.drift_is b.clock safe.clock_ok request.user_id
              request.proof taken b.admitted safe.guarded,
        )

    pub serve_request-IsSafe :
        IsI64 request.proof.timestamp → IsSafe d (serve_request S C conn request b)
    unfolding serve_request
    serve_request-IsSafe ht =
        let (distinct, guarded) =
          log_answer-Distinct (Guarded d after b.clock) request
            (handle_request C S conn b.protector b.clock request).0 b.admitted safe.distinct
            after-Guarded (new_entry ht) in
        record {
          valid = after-IsValid;
          drift_is = after-drift;
          clock_ok = safe.clock_ok;
          distinct = distinct;
          guarded = guarded;
        }

  pub tick-IsSafe :
      (b : Bank) (now : ℤ)
      → b.clock ≤ℤ now
      → IsSeconds now
      → IsSafe d b
      → IsSafe d (record b { clock = now })
  tick-IsSafe b now later hn safe = record {
    valid = safe.valid;
    drift_is = safe.drift_is;
    clock_ok = hn;
    distinct = safe.distinct;
    guarded =
        All-map_lem (Guarded d b.protector b.clock) (Guarded d b.protector now) b.admitted
          (λ x h. (h.0, λ fresh. h.1 (omega arith))) safe.guarded;
  }

  Step-IsSafe : {b c : Bank} → Step S C b c → IsSafe d b → IsSafe d c
  Step-IsSafe (tick b now later hn) safe = tick-IsSafe b now later hn safe
  Step-IsSafe (serve b conn request ht) safe = serve_request-IsSafe b safe conn request ht

  pub Reaches-IsSafe : {b c : Bank} → Reaches S C b c → IsSafe d b → IsSafe d c
  Reaches-IsSafe here safe = safe
  Reaches-IsSafe (next before step) safe = Step-IsSafe step (Reaches-IsSafe before safe)

-- A bank that has just been started.
abbrev pub opened : ℤ → ℤ → Bank
opened d clock = record { protector = new d; clock = clock; admitted = [] }

pub opened-IsSafe : (d clock : ℤ) → IsSeconds d → IsSeconds clock → IsSafe d (opened d clock)
unfolding new
opened-IsSafe d clock hd hc = record {
  valid = record { distinct = tt; drift = hd };
  drift_is = refl;
  clock_ok = hc;
  distinct = tt;
  guarded = tt;
}

-- In every state that the system of tasks reaches from a bank that was just started, no user has
-- been let in twice with one proof. The tasks handle their requests in any order, with any registry
-- at each of them, and a request is one step; the clock does not run backwards, the drift and the
-- clock readings are at least 0 and below 2 ^ 62, and the timestamps are i64s.
pub Reaches-Distinct :
    (S : Rusqlite) (C : Curve) (d clock : ℤ) (b : Bank)
    → IsSeconds d
    → IsSeconds clock
    → Reaches S C (opened d clock) b
    → Distinct b.admitted
Reaches-Distinct S C d clock b hd hc path =
    let safe : IsSafe d b = Reaches-IsSafe S C d path (opened-IsSafe d clock hd hc) in safe.distinct
