-- ===== src/Programs/Lockout.antt =====
-- src/bin/enroll_user.rs: an enrollment that fails in the database, after the key file was written.
use zkp_verifier.Common.{
  ◌≡◌, ◌≢◌, ap, sym, ◌∙◌, subst, String, Bool, true, false, Option, some, ok, Bytes, All, ok_inj,
}
use mathlib.Core.Option.{some-injective}
use zkp_verifier.Common.Int.{ℤ}
use zkp_verifier.Curve.{Curve, IsGroup, IsEncoding}
use zkp_verifier.Database.{Rusqlite}
use zkp_verifier.FileSystem.{FileSystem, IsDisk}
use zkp_verifier.Protocol.{AuthRequest, AuthResponse}
use zkp_verifier.Engine.{public_key, public_to_bytes}
use zkp_verifier.Storage.{get_public_key}
use zkp_verifier.Storage.Sql.{IsSql}
use zkp_verifier.Storage.Registry.{get_public_key-register_failed}
use zkp_verifier.Replay.{ReplayProtector}
use zkp_verifier.Server.Handle.{Admits, handle_request-Admits_iff}
use zkp_verifier.Client.{Draw, auth_request, send_raw_request}
use zkp_verifier.Client.Login.{to_server}
use zkp_verifier.Client.Request.{auth_request_fields}
use zkp_verifier.Cli.Servers.{EnrollUserOptions}
use zkp_verifier.Cli.Clients.{UserClientOptions}
use zkp_verifier.Programs.{key_file, Session, Prepared}
use zkp_verifier.Programs.Enroll.{user_or_default, enroll_user}
use zkp_verifier.Programs.Enrolled.{writing, registering, enroll_user-Keeps}
use zkp_verifier.Programs.Login.{saved_key}
use zkp_verifier.Programs.Responses.{responses-All}
use zkp_verifier.Programs.UserClient.{Link, after_key, seen, user_client}

module _ (C : Curve) (S : Rusqlite) (g : IsGroup C) (enc : IsEncoding C g) (bank : S.Connection)
    (u : String) (sk : C.Scalar) (old : C.Point) (found : get_public_key S C bank u ≡ ok (some old))
    (differ : public_key C sk ≢ old) where
  -- A request made with another key than the registered one is not answered with success.
  pub other_key_refused :
      (p : ReplayProtector) (now : ℤ) (d : Draw C) (tamper : Bool) (request : AuthRequest)
      (r : AuthResponse)
      → auth_request C d u sk tamper ≡ ok request
      → send_raw_request (to_server S C bank p now) request ≡ ok r
      → r.success ≢ true
  unfolding send_raw_request public_to_bytes
  other_key_refused p now d tamper request r made answered success =
      let (user_is, key_is, _) = auth_request_fields C d u sk tamper request made in
      let a =
        (handle_request-Admits_iff S C bank p now request).0
          (subst Admits (sym answered) success) in
      let same : a.pk ≡ old =
        some-injective _ _
          (ok_inj (sym a.registered ∙ ap (get_public_key S C bank) user_is ∙ found)) in
      differ (enc.point_to_bytes_inj _ _ (sym key_is ∙ a.key_matches) ∙ same)

module _ (F : FileSystem) (C : Curve) (S : Rusqlite) (g : IsGroup C) (enc : IsEncoding C g)
    (laws : IsDisk F) (sql : IsSql S) (e : EnrollUserOptions) (s later : Session F C S)
    (conn bank : S.Connection) (one : e.list ≡ false) (opened : s.opened ≡ ok conn)
    (in_bank : (enroll_user F C S e s).bank ≡ some bank)
    (same : later.disk ≡ (enroll_user F C S e s).disk) (text : Bytes)
    (read : F.read_to_string later.disk (key_file (user_or_default e.user_id)) ≡ ok text)
    (old : C.Point) (found : Option C.Point) where
  -- If `enroll_user` is run for a user who is registered with another key, the key file is written
  -- and `register` fails, then `user_client`, run for that user next, is not answered with success
  -- by the server, at any clocks and protectors, and whether it corrupts the proof, sends it twice,
  -- or does neither. The disk is as the first program left it, the reading of the key file and the
  -- lookup in the bank's database as it was left succeed, and the laws of the disk and of SQL hold.
  pub enroll_user_locks_out :
      get_public_key S C conn (user_or_default e.user_id) ≡ ok (some old)
      → (writing F C S s conn (user_or_default e.user_id)).0 ≡ ok tt
      → (registering F C S s conn (user_or_default e.user_id)).0 ≢ ok tt
      → public_key C s.fresh_key ≢ old
      → get_public_key S C bank (user_or_default e.user_id) ≡ ok found
      → (p p' : ReplayProtector) (now now' : ℤ) (d : Draw C) (addr : String) (tamper replay : Bool)
      → All
          (λ r. r.success ≢ true)
          (seen C F S (
            user_client C F S
              (record {
                addr = addr;
                user_id = user_or_default e.user_id;
                tamper = tamper;
                replay = replay;
                unregistered = false;
              })
              later
              d
              (ok
                (record { first = to_server S C bank p now; again = to_server S C bank p' now' }))))
  unfolding user_client
  enroll_user_locks_out before written failed differ looked p p' now now' d addr tamper replay =
      let u = user_or_default e.user_id in
      let sk = s.fresh_key in
      let (_, bank_is) = enroll_user-Keeps F C S e s conn one opened written in
      let found_is : found ≡ some old =
        get_public_key-register_failed S C sql conn u (public_key C sk) s.now u (some old) found
          failed before
          (subst (λ b. get_public_key S C b u ≡ ok found)
            (some-injective _ _ (sym in_bank ∙ bank_is)) looked) in
      let o : UserClientOptions = record {
        addr = addr;
        user_id = u;
        tamper = tamper;
        replay = replay;
        unregistered = false;
      } in
      let link : Link = record {
        first = to_server S C bank p now;
        again = to_server S C bank p' now';
      } in
      let refused = other_key_refused C S g enc bank u sk old (looked ∙ ap ok found_is) differ in
      subst
        (λ (q : Prepared F C S).
          All (λ (r : AuthResponse). r.success ≢ true)
            (after_key C o d (ok link) u q.key).responses)
        (sym (
          saved_key F C S g enc laws e s later conn bank one opened in_bank same text read written))
        (responses-All C o link d u sk (λ r. r.success ≢ true) (refused p now d tamper)
          (refused p' now' d tamper))
