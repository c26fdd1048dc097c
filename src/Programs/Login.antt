-- ===== src/Programs/Login.antt =====
-- src/bin/enroll_user.rs and src/bin/user_client.rs with src/tcp/server.rs: a user who is enrolled by one
-- program and logs in by the other.
use zkp_verifier.Common.{
  ◌≡◌, refl, ◌≢◌, ap, sym, ◌∙◌, subst, String, false, Option, none, some, [], ◌∷◌, ok, Bytes,
}
use mathlib.Core.Option.{some-injective}
use zkp_verifier.Common.Int.{ℤ, IsI64}
use zkp_verifier.Curve.{Curve, IsGroup, IsEncoding}
use zkp_verifier.Database.{Rusqlite}
use zkp_verifier.FileSystem.{FileSystem, IsDisk}
use zkp_verifier.Proof.{Proof}
use zkp_verifier.Engine.{public_key, generate_proof}
use zkp_verifier.Storage.{get_public_key}
use zkp_verifier.Storage.Sql.{IsSql}
use zkp_verifier.Storage.Registry.{registered_key}
use zkp_verifier.Replay.{ReplayProtector}
use zkp_verifier.Replay.Window.{IsSeconds, InWindow}
use zkp_verifier.Replay.Trace.{IsValid}
use zkp_verifier.Replay.Table.{live}
use zkp_verifier.Server.Handle.{welcome}
use zkp_verifier.Client.{Connection, Draw}
use zkp_verifier.Client.Login.{to_server, authenticate-welcome}
use zkp_verifier.Cli.Servers.{EnrollUserOptions}
use zkp_verifier.Cli.Clients.{UserClientOptions}
use zkp_verifier.Programs.{key_file, load_key, Session, Prepared, prepare_key}
use zkp_verifier.Programs.Keys.{load_key-write, prepare_key-there}
use zkp_verifier.Programs.Enroll.{user_or_default, enroll_user}
use zkp_verifier.Programs.Enrolled.{writing, enroll_user-Keeps, enroll_user-done}
use zkp_verifier.Programs.Responses.{one_request}
use zkp_verifier.Programs.UserClient.{shown, Link, after_key, user_client}

module _ (F : FileSystem) (C : Curve) (S : Rusqlite) (g : IsGroup C) (enc : IsEncoding C g)
    (laws : IsDisk F) (e : EnrollUserOptions) (s later : Session F C S) (conn bank : S.Connection)
    (one : e.list ≡ false) (opened : s.opened ≡ ok conn)
    (in_bank : (enroll_user F C S e s).bank ≡ some bank)
    (same : later.disk ≡ (enroll_user F C S e s).disk) (text : Bytes)
    (read : F.read_to_string later.disk (key_file (user_or_default e.user_id)) ≡ ok text) where
  abbrev pub user : String
  user = user_or_default e.user_id

  -- The next program loads the key that was written.
  pub saved_key :
      (writing F C S s conn user).0 ≡ ok tt
      → prepare_key F C S later user false
        ≡ record { key = ok s.fresh_key; disk = later.disk; bank = none }
  saved_key written =
      let path = key_file user in
      let now_is = same ∙ (enroll_user-Keeps F C S e s conn one opened written).0 in
      prepare_key-there F C g enc laws S later user false s.fresh_key
        (ap (λ k. F.is_there k path) now_is ∙ laws.is_there-write s.disk path _ written)
        (ap (λ k. load_key F C k path) now_is
          ∙ load_key-write F C g enc laws s.disk path s.fresh_key text written
              (ap (λ k. F.read_to_string k path) (sym now_is) ∙ read))

  module _ (sql : IsSql S) (found : Option C.Point)
      (looked : get_public_key S C bank user ≡ ok found) where
    -- A user whom `enroll_user` enrolls without an error, with a key that is not the identity, is
    -- let in by the server when `user_client` is run for that user next: it shows the one response,
    -- with success. The disk is as the first program left it, the reading of the key file and the
    -- lookup in the bank's database as it was left succeed, the laws of the disk and of SQL hold,
    -- the proof was made with a nonce scalar that does not give the identity, the protector is
    -- valid, the server's clock is from 0 to below 2 ^ 62, the client's clock is an i64 within the
    -- drift of it, and the drawn nonce does not stand in the table with a timestamp that is not
    -- below the cutoff.
    pub enroll_user-user_client :
        (enroll_user F C S e s).result ≡ ok tt
        → public_key C s.fresh_key ≢ g.identity
        → (p : ReplayProtector) (now : ℤ) (d : Draw C) (f : Proof)
        → generate_proof C s.fresh_key (public_key C s.fresh_key) d.now d.nonce d.k ≡ ok f
        → C.mul C.generator d.k ≢ g.identity
        → IsValid p
        → IsSeconds now
        → IsI64 d.now
        → InWindow p.max_drift_secs now d.now
        → live p now (user, d.nonce) ≡ none
        → (addr : String) (again : Connection)
        → (user_client C F S
            (record {
              addr = addr;
              user_id = user;
              tamper = false;
              replay = false;
              unregistered = false;
            })
            later
            d
            (ok (record { first = to_server S C bank p now; again = again }))).1
          ≡ shown (welcome user ∷ []) (ok tt)
    unfolding user_client
    enroll_user-user_client done key p now d f made nonzero v hn ht window fresh addr again =
        let (written, registered) = enroll_user-done F C S e s conn one opened done in
        let (_, bank_is) = enroll_user-Keeps F C S e s conn one opened written in
        let found_is : found ≡ some (public_key C s.fresh_key) =
          registered_key S C sql g enc conn user (public_key C s.fresh_key) s.now key registered
            found
            (subst (λ b. get_public_key S C b user ≡ ok found)
              (some-injective _ _ (sym in_bank ∙ bank_is)) looked) in
        let o : UserClientOptions = record {
          addr = addr;
          user_id = user;
          tamper = false;
          replay = false;
          unregistered = false;
        } in
        let link : Link = record { first = to_server S C bank p now; again = again } in
        ap (λ (q : Prepared F C S). after_key C o d (ok link) user q.key) (saved_key written)
        ∙ one_request C o link d user s.fresh_key (welcome user) refl (
            authenticate-welcome S C bank p now g enc s.fresh_key user d f made nonzero
              (looked ∙ ap ok found_is) v hn ht window fresh)
