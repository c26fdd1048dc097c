-- ===== src/Server/Run.antt =====
-- src/tcp/server.rs: how a `BankServer` is made, and `run`, the loop that accepts connections, over the
-- events that its `select!` meets.
use zkp_verifier.Common.{String, Bool, true, false, List, [], ◌∷◌, Outcome, ok, ◌>>=◌, expect}
use zkp_verifier.Database.{Rusqlite}
use zkp_verifier.Replay
use zkp_verifier.Replay.{ReplayProtector}
use zkp_verifier.Storage.{in_memory}

-- An event: the shutdown channel has changed, and holds this; or what `accept` gives.
pub data Select (T : Type 0) : Type 0 where
  shutdown : Bool → Select T
  accepted : T → Select T
  accept_failed : String → Select T

module _ (S : Rusqlite) where
  pub record BankServer : Type 0 where
    pub local_addr : String
    pub registry : S.Connection
    pub replay_protector : ReplayProtector

  -- What `TcpListener::bind` and `local_addr` give are arguments.
  unfoldable pub bind :
      Outcome String (Unit {0}) → Outcome String String → Outcome String BankServer
  bind listener addr = do
    _ ← listener
    local_addr ← addr
    registry ← expect (in_memory S)
    ok (record { local_addr = local_addr; registry = registry; replay_protector = Replay.default })

  unfoldable pub with_registry : BankServer → S.Connection → BankServer
  with_registry server registry = record server { registry = registry }

  unfoldable pub with_replay_protector : BankServer → ReplayProtector → BankServer
  with_replay_protector server protector = record server { replay_protector = protector }

  -- The accessors, whose `Arc::clone` shares what the server has.
  unfoldable pub registry : BankServer → S.Connection
  registry server = server.registry

  unfoldable pub replay_protector : BankServer → ReplayProtector
  replay_protector server = server.replay_protector

  unfoldable pub local_addr : BankServer → String
  local_addr server = server.local_addr

  module _ (T : Type 0) where
    -- The arguments of `handle_connection` in a task that is spawned.
    pub record Task : Type 0 where
      pub stream : T
      pub registry : S.Connection
      pub replay_protector : ReplayProtector

    -- The tasks in their order, and whether the loop has ended.
    pub record Spawned : Type 0 where
      pub tasks : List Task
      pub ended : Bool

    unfoldable pub run : BankServer → List (Select T) → Spawned
    run server [] = record { tasks = []; ended = false }
    run server (shutdown true ∷ es) = record { tasks = []; ended = true }
    run server (shutdown false ∷ es) = run server es
    run server (accepted stream ∷ es) =
        let rest = run server es in
        let task : Task = record {
          stream = stream;
          registry = server.registry;
          replay_protector = server.replay_protector;
        } in
        record rest { tasks = task ∷ rest.tasks }
    run server (accept_failed e ∷ es) = run server es
