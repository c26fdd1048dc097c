-- ===== src/Programs/Takeover.antt =====
-- src/bin/user_client.rs: the automatic enrollment of a user without a key file, which asks for no proof
-- of the key that is registered before.
use zkp_verifier.Common.{
  ◌≡◌, ◌≢◌, refl, ap, ◌∙◌, String, Bool, true, false, Option, none, some, [], ◌∷◌, Outcome, ok, err,
  panic,
}
use zkp_verifier.Common.Int.{ℤ, IsI64}
use zkp_verifier.Curve.{Curve, IsGroup, IsEncoding}
use zkp_verifier.Database.{Rusqlite}
use zkp_verifier.FileSystem.{FileSystem}
use zkp_verifier.Proof.{Proof}
use zkp_verifier.Protocol.{AuthRequest, AuthResponse}
use zkp_verifier.Engine.{public_key, generate_proof}
use zkp_verifier.Storage.{get_public_key}
use zkp_verifier.Storage.Sql.{IsSql}
use zkp_verifier.Storage.Registry.{registered_key}
use zkp_verifier.Replay.{ReplayProtector}
use zkp_verifier.Replay.Window.{IsSeconds, InWindow}
use zkp_verifier.Replay.Trace.{IsValid}
use zkp_verifier.Replay.Table.{live}
use zkp_verifier.Server.Handle.{welcome}
use zkp_verifier.Client.{Connection, Draw, auth_request, send_raw_request}
use zkp_verifier.Client.Login.{to_server, authenticate-welcome}
use zkp_verifier.Cli.Clients.{UserClientOptions}
use zkp_verifier.Programs.{key_file, Session, save_key, create_key, prepare_key}
use zkp_verifier.Programs.Enrolled.{writing, registering}
use zkp_verifier.Programs.Lockout.{other_key_refused}
use zkp_verifier.Programs.Responses.{one_request}
use zkp_verifier.Programs.UserClient.{shown, Link, after_key, user_client}

module _ (F : FileSystem) (C : Curve) (S : Rusqlite) (s : Session F C S) (u : String)
    (conn : S.Connection) (opened : s.opened ≡ ok conn)
    (absent : F.is_there s.disk (key_file u) ≡ false)
    (done : (registering F C S s conn u).0 ≡ ok tt)
    (write_ends : (writing F C S s conn u).0 ≢ panic) where
  saved :
      (w : Outcome String (Unit {0}) × F.Disk)
      → writing F C S s conn u ≡ w
      → (b : Option S.Connection)
      → (save_key F C S s.disk (key_file u) s.fresh_key (ok b)).key ≡ ok s.fresh_key
  saved (ok _, disk) e b = rw e refl
  saved (err x, disk) e b = rw e refl
  saved (panic, disk) e b = absurd (write_ends (rw e refl))

  fresh_key : (prepare_key F C S s u false).key ≡ ok s.fresh_key
  unfolding prepare_key create_key
  fresh_key = rw (absent, opened, done) (saved _ refl (some (registering F C S s conn u).1))

  module _ (g : IsGroup C) (enc : IsEncoding C g) (sql : IsSql S)
      (key : public_key C s.fresh_key ≢ g.identity) (found : Option C.Point)
      (looked : get_public_key S C (registering F C S s conn u).1 u ≡ ok found) where
    abbrev bank : S.Connection
    bank = (registering F C S s conn u).1

    now_registered : get_public_key S C bank u ≡ ok (some (public_key C s.fresh_key))
    now_registered =
        looked
        ∙ ap ok (
            registered_key S C sql g enc conn u (public_key C s.fresh_key) s.now key done found
              looked)

    pub user_client_takes_over :
        (p : ReplayProtector) (now : ℤ) (d : Draw C) (f : Proof)
        → generate_proof C s.fresh_key (public_key C s.fresh_key) d.now d.nonce d.k ≡ ok f
        → C.mul C.generator d.k ≢ g.identity
        → IsValid p
        → IsSeconds now
        → IsI64 d.now
        → InWindow p.max_drift_secs now d.now
        → live p now (u, d.nonce) ≡ none
        → (addr : String) (again : Connection)
        → ((user_client C F S
              (record {
                addr = addr;
                user_id = u;
                tamper = false;
                replay = false;
                unregistered = false;
              })
              s
              d
              (ok (record { first = to_server S C bank p now; again = again }))).1
            ≡ shown (welcome u ∷ []) (ok tt))
          × ((old : C.Scalar) (p' : ReplayProtector) (now' : ℤ) (d' : Draw C) (tamper : Bool)
                (request : AuthRequest) (r : AuthResponse)
              → public_key C old ≢ public_key C s.fresh_key
              → auth_request C d' u old tamper ≡ ok request
              → send_raw_request (to_server S C bank p' now') request ≡ ok r
              → r.success ≢ true)
    unfolding user_client
    user_client_takes_over p now d f made nonzero v hn ht window fresh addr again =
        let o : UserClientOptions = record {
          addr = addr;
          user_id = u;
          tamper = false;
          replay = false;
          unregistered = false;
        } in
        let link : Link = record { first = to_server S C bank p now; again = again } in
        (
          ap (after_key C o d (ok link) u) fresh_key
              ∙ one_request C o link d u s.fresh_key (welcome u) refl (
                  authenticate-welcome S C bank p now g enc s.fresh_key u d f made nonzero
                    now_registered v hn ht window fresh),
          λ old p' now' d' tamper request r differ.
              other_key_refused C S g enc bank u old (public_key C s.fresh_key) now_registered
                differ p' now' d' tamper request r,
        )
