-- ===== src/Programs/UserClient.antt =====
-- src/bin/user_client.rs: `main` behind its options.
use zkp_verifier.Common.{String, ◌<>◌, Bool, List, [], ◌∷◌, Outcome, ok, err, panic, if◌then◌else◌}
use zkp_verifier.Curve.{Curve}
use zkp_verifier.Database.{Rusqlite}
use zkp_verifier.FileSystem.{FileSystem}
use zkp_verifier.Proof.{ZkpError}
use zkp_verifier.Protocol.{AuthRequest, AuthResponse}
use zkp_verifier.Client.{Connection, Draw, auth_request, send_raw_request}
use zkp_verifier.Cli.Clients.{UserClientOptions}
use zkp_verifier.Programs.{MainError, zkp_failed, io_failed, Session, Prepared, prepare_key}

-- The responses that are printed, and how the program ends.
pub record Shown : Type 0 where
  pub responses : List AuthResponse
  pub result : Outcome MainError (Unit {0})

abbrev pub shown : List AuthResponse → Outcome MainError (Unit {0}) → Shown
shown responses result = record { responses = responses; result = result }

-- What the connection does with the first request and, if the same packet is sent again, with that.
pub record Link : Type 0 where
  pub first : Connection
  pub again : Connection

abbrev pub after_replay : AuthResponse → Outcome ZkpError AuthResponse → Shown
after_replay response (ok replayed) = shown (response ∷ replayed ∷ []) (ok tt)
after_replay response (err e) = shown (response ∷ []) (err (zkp_failed e))
after_replay response panic = shown (response ∷ []) panic

abbrev pub after_first : Link → Bool → AuthRequest → Outcome ZkpError AuthResponse → Shown
after_first link replay request (ok response) =
    if replay
    then after_replay response (send_raw_request link.again request)
    else shown (response ∷ []) (ok tt)
after_first link replay request (err e) = shown [] (err (zkp_failed e))
after_first link replay request panic = shown [] panic

abbrev pub after_request : Link → Bool → Outcome ZkpError AuthRequest → Shown
after_request link replay (ok request) =
    after_first link replay request (send_raw_request link.first request)
after_request link replay (err e) = shown [] (err (zkp_failed e))
after_request link replay panic = shown [] panic

module _ (C : Curve) where
  abbrev pub after_connect :
      UserClientOptions → Draw C → String → C.Scalar → Outcome String Link → Shown
  after_connect o d user_id secret_key (ok link) =
      after_request link o.replay (auth_request C d user_id secret_key o.tamper)
  after_connect o d user_id secret_key (err e) = shown [] (err (io_failed e))
  after_connect o d user_id secret_key panic = shown [] panic

  abbrev pub after_key :
      UserClientOptions → Draw C → Outcome String Link → String → Outcome MainError C.Scalar → Shown
  after_key o d connected user_id (ok secret_key) = after_connect o d user_id secret_key connected
  after_key o d connected user_id (err e) = shown [] (err e)
  after_key o d connected user_id panic = shown [] panic

  abbrev pub client_user : UserClientOptions → String → String
  client_user o uuid = if o.unregistered then "unknown_user_" <> uuid else o.user_id

  module _ (F : FileSystem) (S : Rusqlite) where
    unfoldable pub user_client :
        UserClientOptions → Session F C S → Draw C → Outcome String Link → Prepared F C S × Shown
    user_client o s d connected =
        let user_id = client_user o s.uuid in
        let prepared = prepare_key F C S s user_id o.unregistered in
        (prepared, after_key o d connected user_id prepared.key)

    -- The responses that a run shows.
    abbrev pub seen : Prepared F C S × Shown → List AuthResponse
    seen r = r.1.responses
