-- ===== src/Programs/Replayed.antt =====
-- src/bin/user_client.rs with src/tcp/server.rs: the packet that is sent a second time.
use zkp_verifier.Common.{
  ◌≡◌, ◌≢◌, refl, sym, subst, true, some, List, [], ◌∷◌, Outcome, ok, err, panic, All,
}
use zkp_verifier.Common.Int.{ℤ, ◌≤ℤ◌, IsI64}
use zkp_verifier.Curve.{Curve}
use zkp_verifier.Database.{Rusqlite}
use zkp_verifier.FileSystem.{FileSystem}
use zkp_verifier.Proof.{ZkpError}
use zkp_verifier.Protocol.{AuthResponse}
use zkp_verifier.Replay.{ReplayProtector}
use zkp_verifier.Replay.Window.{IsSeconds}
use zkp_verifier.Replay.Trace.{IsValid}
use zkp_verifier.Server.{handle_request}
use zkp_verifier.Server.Handle.{Admits}
use zkp_verifier.Server.Login.{Visit, serve, admitted_once}
use zkp_verifier.Client.{Draw, send_raw_request}
use zkp_verifier.Client.Login.{to_server}
use zkp_verifier.Client.Request.{auth_request_fields}
use zkp_verifier.Cli.Clients.{UserClientOptions}
use zkp_verifier.Programs.{MainError, Session, prepare_key}
use zkp_verifier.Programs.UserClient.{Link, user_client, client_user, after_key}
use zkp_verifier.Programs.Responses.{two_responses}

module _ (F : FileSystem) (C : Curve) (S : Rusqlite) (p : ReplayProtector)
    (conn conn' : S.Connection) (now now' : ℤ) (vs : List (Visit S C)) where
  -- The first packet meets one registry and clock, the second one another, and in between the
  -- server has handled other requests.
  abbrev pub served_twice : Link
  served_twice = record {
    first = to_server S C conn p now;
    again = record {
      send = λ request. ok tt;
      next = λ request.
          some
            (handle_request C S conn' (serve S C (handle_request C S conn p now request).1 vs) now'
              request).0;
    };
  }

  response-Admits :
      (w : Outcome ZkpError AuthResponse) (r : AuthResponse)
      → w ≡ ok r
      → r.success ≡ true
      → Admits w
  response-Admits w r e h = subst Admits (sym e) h

  -- If `user_client` shows two responses, to its packet and to the same packet sent again, and the
  -- first one tells success, the second one does not. The server may have handled other requests in
  -- between, with any registry; its protector is valid, the client's clock is an i64, and the
  -- server's clock readings are at least 0 and below 2 ^ 62, of which those in between are not
  -- ahead of the last one.
  pub user_client-replay :
      (o : UserClientOptions) (s : Session F C S) (d : Draw C) (r again : AuthResponse)
      → IsValid p
      → IsSeconds now
      → IsSeconds now'
      → IsI64 d.now
      → All (λ (v : Visit S C). IsSeconds v.now × (v.now ≤ℤ now')) vs
      → (user_client C F S o s d (ok served_twice)).1.responses ≡ r ∷ again ∷ []
      → r.success ≡ true
      → again.success ≢ true
  unfolding user_client send_raw_request
  user_client-replay o s d r again v hn hn' ht ws h yes_first yes_again =
      by_key (prepare_key F C S s (client_user C o s.uuid) o.unregistered).key h
    where
      by_key :
          (k : Outcome MainError C.Scalar)
          → (after_key C o d (ok served_twice) (client_user C o s.uuid) k).responses
            ≡ r ∷ again ∷ []
          → ⊥
      by_key (ok sk) h =
          let (request, made, (first_is, again_is)) =
            two_responses C o served_twice d (client_user C o s.uuid) sk r again h in
          let (_, _, time) =
            auth_request_fields C d (client_user C o s.uuid) sk o.tamper request made in
          admitted_once S C p v (record { conn = conn; now = now; request = request }) vs
            (record { conn = conn'; now = now'; request = request }) hn (rw time ht)
            (response-Admits _ r first_is yes_first) ws hn' refl refl
            (response-Admits _ again again_is yes_again)
      by_key (err e) h = cc
      by_key panic h = cc
