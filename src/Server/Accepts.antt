-- ===== src/Server/Accepts.antt =====
-- src/tcp/server.rs: which connections `run` hands to tasks.
use zkp_verifier.Common.{◌≡◌, refl, ap, true, false, List, [], ◌∷◌, map}
use zkp_verifier.Database.{Rusqlite}
use zkp_verifier.Server.Run.{Select, shutdown, accepted, accept_failed, BankServer, Task, run}

module _ (T : Type 0) where
  -- The events up to the signal to stop.
  unfoldable pub until_stop : List (Select T) → List (Select T)
  until_stop [] = []
  until_stop (shutdown true ∷ es) = []
  until_stop (shutdown false ∷ es) = shutdown false ∷ until_stop es
  until_stop (accepted t ∷ es) = accepted t ∷ until_stop es
  until_stop (accept_failed e ∷ es) = accept_failed e ∷ until_stop es

  unfoldable pub streams : List (Select T) → List T
  streams [] = []
  streams (shutdown b ∷ es) = streams es
  streams (accepted t ∷ es) = t ∷ streams es
  streams (accept_failed e ∷ es) = streams es

  module _ (S : Rusqlite) (server : BankServer S) where
    abbrev pub task_for : T → Task S T
    task_for stream = record {
      stream = stream;
      registry = server.registry;
      replay_protector = server.replay_protector;
    }

    pub run-tasks :
        (es : List (Select T)) → (run S T server es).tasks ≡ map task_for (streams (until_stop es))
    unfolding run until_stop streams
    run-tasks [] = refl
    run-tasks (shutdown true ∷ es) = refl
    run-tasks (shutdown false ∷ es) = run-tasks es
    run-tasks (accepted t ∷ es) = ap (◌∷◌ (task_for t)) (run-tasks es)
    run-tasks (accept_failed e ∷ es) = run-tasks es
