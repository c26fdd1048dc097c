-- ===== src/Server/Handle.antt =====
-- src/tcp/server.rs: which requests are answered with success, and what a request does to the
-- protector.
use zkp_verifier.Common.{
  ◌≡◌, refl, ◌↔◌, ◌⊎◌, inl, inr, String, ◌<>◌, Bool, true, false, Option, none, some, Outcome, ok,
  err, panic, bytes_beq, bytes_beq_iff, Bool-cases,
}
use zkp_verifier.Common.Int.{ℤ}
use zkp_verifier.Curve.{Curve}
use zkp_verifier.Database.{Rusqlite}
use zkp_verifier.Proof.{ZkpError}
use zkp_verifier.Protocol.{AuthRequest, AuthResponse}
use zkp_verifier.Engine.{public_to_bytes, verify}
use zkp_verifier.Replay.{ReplayError, ReplayProtector, check_and_record}
use zkp_verifier.Replay.Trace.{Call, attempt}
use zkp_verifier.Storage.{StorageError, get_public_key}
use zkp_verifier.Server.{respond, verdict, after_replay, after_lookup, handle_request}

-- The response that lets a user in.
abbrev pub welcome : String → AuthResponse
welcome user_id =
    respond user_id true ("Identity verified successfully for user '" <> user_id <> "'.")

-- An outcome that answers with success.
abbrev pub Admits : Outcome ZkpError AuthResponse → Type 0
Admits (ok response) = response.success ≡ true
Admits (err e) = ⊥
Admits panic = ⊥

module _ (S : Rusqlite) (C : Curve) (conn : S.Connection) (p : ReplayProtector) (now : ℤ)
    (request : AuthRequest) where
  pub record Authentic : Type 0 where
    pub pk : C.Point
    pub registered : get_public_key S C conn request.user_id ≡ ok (some pk)
    pub key_matches : request.public_key ≡ public_to_bytes C pk
    pub taken : (check_and_record p now request.user_id request.proof).0 ≡ ok tt
    pub proven : verify C pk request.proof ≡ ok true

  verdict-Admits : (u : String) (r : Outcome ZkpError Bool) → Admits (verdict u r) → r ≡ ok true
  unfolding verdict
  verdict-Admits u (ok true) h = refl
  verdict-Admits u (ok false) h = cc
  verdict-Admits u (err e) h = cc
  verdict-Admits u panic h = absurd h

  after_replay-Admits :
      (pk : C.Point) (r : Outcome ReplayError (Unit {0}) × ReplayProtector)
      → Admits (after_replay C pk request r).0
      → (r.0 ≡ ok tt) × (verify C pk request.proof ≡ ok true)
  unfolding after_replay
  after_replay-Admits pk (ok _, q) h =
      (refl, verdict-Admits request.user_id (verify C pk request.proof) h)
  after_replay-Admits pk (err e, q) h = cc
  after_replay-Admits pk (panic, q) h = absurd h

  after_lookup-Admits :
      (r : Outcome StorageError (Option C.Point))
      → get_public_key S C conn request.user_id ≡ r
      → Admits (after_lookup C p now request r).0
      → Authentic
  unfolding after_lookup
  after_lookup-Admits (ok none) e h = cc
  after_lookup-Admits (err x) e h = cc
  after_lookup-Admits panic e h = absurd h
  after_lookup-Admits (ok (some pk)) e h =
      elim (Bool-cases (bytes_beq request.public_key (public_to_bytes C pk))) [
        | inl same ↦
            let (taken, proven) =
              after_replay-Admits pk (check_and_record p now request.user_id request.proof)
                (rw same at h) in
            record {
              pk = pk;
              registered = e;
              key_matches = (bytes_beq_iff _ _).0 same;
              taken = taken;
              proven = proven;
            }
        | inr differ ↦ cc (rw differ at h)
      ]

  after_replay-ok :
      (pk : C.Point) (r : Outcome ReplayError (Unit {0}) × ReplayProtector)
      → r.0 ≡ ok tt
      → after_replay C pk request r ≡ (verdict request.user_id (verify C pk request.proof), r.1)
  unfolding after_replay
  after_replay-ok pk (ok _, q) h = refl
  after_replay-ok pk (err e, q) h = cc
  after_replay-ok pk (panic, q) h = cc

  -- If the lookup finds a key, the request carries the bytes of that key and the protector takes
  -- the proof, the answer is the verdict on `verify`, and the protector is left with the proof's
  -- nonce recorded, whatever the verdict is.
  pub handle_request-verdict :
      (pk : C.Point)
      → get_public_key S C conn request.user_id ≡ ok (some pk)
      → request.public_key ≡ public_to_bytes C pk
      → (check_and_record p now request.user_id request.proof).0 ≡ ok tt
      → handle_request C S conn p now request ≡ (
        verdict request.user_id (verify C pk request.proof),
        (check_and_record p now request.user_id request.proof).1,
      )
  unfolding handle_request
  handle_request-verdict pk registered key_matches taken =
      rw (registered, (bytes_beq_iff request.public_key (public_to_bytes C pk)).1 key_matches)
        (after_replay-ok pk (check_and_record p now request.user_id request.proof) taken)

  Admits-of_Authentic : Authentic → Admits (handle_request C S conn p now request).0
  unfolding verdict
  Admits-of_Authentic a =
      rw (handle_request-verdict a.pk a.registered a.key_matches a.taken, a.proven) refl

  -- A request is answered with success exactly if the lookup finds a key for its user, the request
  -- carries the bytes of that key, the protector takes its proof, and the proof verifies under that
  -- key.
  pub handle_request-Admits_iff : Admits (handle_request C S conn p now request).0 ↔ Authentic
  unfolding handle_request
  handle_request-Admits_iff =
      (after_lookup-Admits (get_public_key S C conn request.user_id) refl, Admits-of_Authentic)

  -- The call that a request makes of the protector, if it makes one.
  abbrev pub call : Call
  call = record { now = now; user_id = request.user_id; proof = request.proof }

  after_replay-protector :
      (pk : C.Point) (r : Outcome ReplayError (Unit {0}) × ReplayProtector)
      → (after_replay C pk request r).1 ≡ r.1
  unfolding after_replay
  after_replay-protector pk (ok _, q) = refl
  after_replay-protector pk (err e, q) = refl
  after_replay-protector pk (panic, q) = refl

  -- A request leaves the protector as it was, or as one call of `check_and_record` for its own user
  -- and proof leaves it.
  pub handle_request-protector :
      ((handle_request C S conn p now request).1 ≡ p)
      ⊎ ((handle_request C S conn p now request).1 ≡ (attempt p call).1)
  unfolding handle_request attempt
  handle_request-protector = lookup (get_public_key S C conn request.user_id)
    where
      lookup :
          (r : Outcome StorageError (Option C.Point))
          → ((after_lookup C p now request r).1 ≡ p)
            ⊎ ((after_lookup C p now request r).1 ≡ (attempt p call).1)
      lookup (ok none) = inl refl
      lookup (err x) = inl refl
      lookup panic = inl refl
      lookup (ok (some pk)) =
          elim (Bool-cases (bytes_beq request.public_key (public_to_bytes C pk))) [
            | inl same ↦ inr (
                rw same (
                  after_replay-protector pk (check_and_record p now request.user_id request.proof)))
            | inr differ ↦ inl (rw differ refl)
          ]
