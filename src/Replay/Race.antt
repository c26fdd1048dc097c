-- ===== src/Replay/Race.antt =====
-- src/replay.rs under several tasks: `check_and_record` reads the clock and tests the timestamp
-- before it takes the lock, so that other calls can run between the two.
use zkp_verifier.Common.{◌≡◌, refl, subst, ap, String, List, [], ◌∷◌, ◌++◌, ok, arith, Outcome, ◌≢◌}
use zkp_verifier.Common.Int.{ℤ, pos, ◌+ℤ◌, ◌<ℤ◌, ◌≤ℤ◌, IsI64, +ℤ_parts, -ℤ_parts, parts_reduced}
use zkp_verifier.HashMap
use zkp_verifier.HashMap.{HashMap}
use zkp_verifier.Proof.{Proof}
use zkp_verifier.Replay.{ReplayError, Key, key_eq, ReplayProtector, new, check_drift, record_nonce}
use zkp_verifier.Replay.Window.{IsSeconds, check_drift-ok_iff, sub_i64-seconds}
use zkp_verifier.Replay.Trace.{Call}

-- The protector, the clock, the calls that have passed the timestamp tests and wait for the lock,
-- and the calls that have succeeded, the last one first.
pub record System : Type 0 where
  pub clock : ℤ
  pub protector : ReplayProtector
  pub waiting : List Call
  pub accepted : List (String × Proof)

abbrev pub call : ℤ → String → Proof → Call
call now u proof = record { now = now; user_id = u; proof = proof }

-- What the system notes of a call's answer.
abbrev pub note :
    String → Proof → Outcome ReplayError (Unit {0}) → List (String × Proof) → List (String × Proof)
note u proof (ok _) acc = (u, proof) ∷ acc
note u proof _ acc = acc

unfoldable pub locked : System → Call → List Call → System
locked s c waiting =
    let (r, p) = record_nonce s.protector c.now c.user_id c.proof in
    record s { protector = p; waiting = waiting; accepted = note c.user_id c.proof r s.accepted }

locked_ok :
    (s : System) (c : Call) (waiting : List Call) {p : ReplayProtector}
    → record_nonce s.protector c.now c.user_id c.proof ≡ (ok tt, p)
    → locked s c waiting
      ≡ record s { protector = p; waiting = waiting; accepted = (c.user_id, c.proof) ∷ s.accepted }
unfolding locked
locked_ok s c waiting e = rw e

pub data Step : System → System → Type 0 where
  tick : (s : System) → Step s (record s { clock = s.clock +ℤ pos 1 })
  sample :
      (s : System) (u : String) (proof : Proof)
      → check_drift s.protector.max_drift_secs s.clock proof.timestamp ≡ ok tt
      → Step s (record s { waiting = call s.clock u proof ∷ s.waiting })
  lock :
      (s : System) (front back : List Call) (c : Call)
      → s.waiting ≡ front ++ (c ∷ back)
      → Step s (locked s c (front ++ back))

pub data Reach (s : System) : System → Type 0 where
  here : Reach s s
  next : {t u : System} → Reach s t → Step t u → Reach s u

next_ok :
    {s : System} (t : System) (front back : List Call) (c : Call) {p : ReplayProtector}
    → Reach s t
    → t.waiting ≡ front ++ (c ∷ back)
    → record_nonce t.protector c.now c.user_id c.proof ≡ (ok tt, p)
    → Reach s (record t {
      protector = p;
      waiting = front ++ back;
      accepted = (c.user_id, c.proof) ∷ t.accepted;
    })
next_ok {s} t front back c r e ok_e =
    subst (Reach s) (locked_ok t c (front ++ back) ok_e) (next r (lock t front back c e))

unfoldable pub start : ℤ → ℤ → System
unfolding new
start d now = record { clock = now; protector = new d; waiting = []; accepted = [] }

abbrev holding : ℤ → HashMap Key ℤ → ReplayProtector
holding d m = record { max_drift_secs = d; seen_nonces = m }

module _ (d now : ℤ) (hd : IsSeconds d) (hn : IsSeconds now) (u : String) (f : Proof) where
  record-empty :
      record_nonce (holding d []) now u f ≡ (ok tt, holding d (((u, f.nonce), f.timestamp) ∷ []))
  unfolding record_nonce HashMap.retain HashMap.get HashMap.insert
  record-empty = refl

  -- The one entry of the table is below the cutoff.
  record-stale :
      (k : Key) (ts : ℤ)
      → ts +ℤ d <ℤ now
      → record_nonce (holding d ((k, ts) ∷ [])) now u f
        ≡ (ok tt, holding d (((u, f.nonce), f.timestamp) ∷ []))
  unfolding record_nonce HashMap.retain HashMap.get HashMap.insert
  record-stale k ts old =
      rw (sub_i64-seconds now d hn hd) (ground (arith, +ℤ_parts ts d, -ℤ_parts now d))

  -- The one entry of the table is another's, and is alive.
  record-other :
      (k : Key) (ts : ℤ)
      → now ≤ℤ ts +ℤ d
      → k ≢ (u, f.nonce)
      → record_nonce (holding d ((k, ts) ∷ [])) now u f
        ≡ (ok tt, holding d ((k, ts) ∷ ((u, f.nonce), f.timestamp) ∷ []))
  unfolding record_nonce HashMap.retain HashMap.get HashMap.insert
  record-other k ts live other =
      rw (sub_i64-seconds now d hn hd)
        (ground (arith, +ℤ_parts ts d, -ℤ_parts now d, key_eq.beq_iff k (u, f.nonce)))

module _ (d now : ℤ) (hd : IsSeconds d) (hn : IsSeconds now) (later : IsSeconds (now +ℤ pos 1))
    (u u' : String) (f g : Proof) (oldest : f.timestamp +ℤ d ≡ now)
    (latest : g.timestamp ≡ now +ℤ pos 1) (other : g.nonce ≢ f.nonce) where
  abbrev old_call : Call
  old_call = call now u f

  abbrev new_call : Call
  new_call = call (now +ℤ pos 1) u' g

  abbrev sampled : System
  sampled = record {
    clock = now +ℤ pos 1;
    protector = holding d [];
    waiting = call (now +ℤ pos 1) u' g ∷ call now u f ∷ call now u f ∷ [];
    accepted = [];
  }

  in_time : (check_drift d now f.timestamp ≡ ok tt) × IsI64 f.timestamp
  in_time =
      let fits : IsI64 f.timestamp =
        grind (arith, oldest, parts_reduced f.timestamp, +ℤ_parts f.timestamp d) in
      (
        (check_drift-ok_iff d now f.timestamp hd hn fits).1
            (grind (arith, oldest, +ℤ_parts f.timestamp d, +ℤ_parts now d)),
        fits,
      )

  new_in_time : check_drift d (now +ℤ pos 1) g.timestamp ≡ ok tt
  new_in_time = rw latest (
      (check_drift-ok_iff d (now +ℤ pos 1) (now +ℤ pos 1) hd later (omega arith)).1
        (omega (arith, +ℤ_parts (now +ℤ pos 1) d)))

  to_sampled : Reach (start d now) sampled
  unfolding start new
  to_sampled =
      next (next (next (next here (sample _ u f in_time.0)) (sample _ u f in_time.0)) (tick _))
        (sample _ u' g new_in_time)

  abbrev twice : System
  twice = record sampled {
    protector = holding d (((u', g.nonce), g.timestamp) ∷ ((u, f.nonce), f.timestamp) ∷ []);
    waiting = [];
    accepted = (u, f) ∷ (u', g) ∷ (u, f) ∷ [];
  }

  to_twice : Reach (start d now) twice
  to_twice =
      let first =
        next_ok sampled (new_call ∷ []) (old_call ∷ []) old_call to_sampled refl
          (record-empty d now hd hn u f) in
      let second = next_ok _ [] (old_call ∷ []) new_call first refl (
        record-stale d (now +ℤ pos 1) hd later u' g (u, f.nonce) f.timestamp
          (grind (arith, oldest, +ℤ_parts now (pos 1), +ℤ_parts f.timestamp d))) in
      next_ok _ [] [] old_call second refl (
        record-other d now hd hn u f (u', g.nonce) g.timestamp
          (rw latest (omega (arith, +ℤ_parts now (pos 1), +ℤ_parts (now +ℤ pos 1) d)))
          (λ e. other (ap (λ (k : Key). k.1) e)))

  -- From a new protector, with tasks that can be interrupted between the reading of the clock and
  -- the lock, a state is reached in which one proof has been accepted twice for its user. The
  -- drift, the clock and the clock a second later are at least 0 and below 2 ^ 62, the proof is in
  -- the last second of its window, and there is a second proof, of any user, with another nonce and
  -- a timestamp one second ahead of the clock.
  pub race_accepts_twice :
      (s : System) × Reach (start d now) s × (s.accepted ≡ (u, f) ∷ (u', g) ∷ (u, f) ∷ [])
  race_accepts_twice = (twice, to_twice, refl)
