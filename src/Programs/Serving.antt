-- ===== src/Programs/Serving.antt =====
-- src/bin/bank_server.rs: the tasks that the program starts.
use zkp_verifier.Common.{
  ◌≡◌, ap, sym, ◌∙◌, String, List, map, Outcome, ok, map_err, expect, >>=-eq-ok, map_err-eq-ok,
  ok_inj,
}
use zkp_verifier.Database.{Rusqlite}
use zkp_verifier.Replay.{default}
use zkp_verifier.Storage.{open_path, count, in_memory}
use zkp_verifier.Server.Run.{BankServer, Select, Spawned, Task, bind, with_registry}
use zkp_verifier.Server.Accepts.{until_stop, streams, run-tasks}
use zkp_verifier.Cli.Servers.{BankServerOptions}
use zkp_verifier.Programs.{storage_failed, io_failed}
use zkp_verifier.Programs.Servers.{bank_server}

module _ (S : Rusqlite) where
  -- A server that was bound has the default protector.
  bind-protector :
      (listener : Outcome String (Unit {0})) (addr : Outcome String String) (server : BankServer S)
      → bind S listener addr ≡ ok server
      → server.replay_protector ≡ default
  unfolding bind
  bind-protector listener addr server h =
      let (_, _, h1) = >>=-eq-ok listener _ h in
      let (local_addr, _, h2) = >>=-eq-ok addr _ h1 in
      let (registry, _, same) = >>=-eq-ok (expect (in_memory S)) _ h2 in
      ap (λ (b : BankServer S). b.replay_protector) (sym (ok_inj same))

  module _ (T : Type 0) where
    pub bank_server-tasks :
        (o : BankServerOptions) (listener : Outcome String (Unit {0}))
        (addr : Outcome String String) (events : List (Select T)) (spawned : Spawned S T)
        → bank_server S T o listener addr events ≡ ok spawned
        → (registry : S.Connection) × (open_path S o.db_path ≡ ok registry)
          × (spawned.tasks
              ≡ map
                  (λ (t : T). record {
                    stream = t;
                    registry = registry;
                    replay_protector = default;
                  })
                  (streams T (until_stop T events)))
    unfolding bank_server with_registry
    bank_server-tasks o listener addr events spawned h =
        let (registry, opened, h1) =
          >>=-eq-ok (map_err storage_failed (open_path S o.db_path)) _ h in
        let (_, _, h2) = >>=-eq-ok (map_err storage_failed (count S registry)) _ h1 in
        let (server, bound, same) = >>=-eq-ok (map_err io_failed (bind S listener addr)) _ h2 in
        let protector = bind-protector listener addr server (map_err-eq-ok io_failed _ bound) in
        (
          registry,
          map_err-eq-ok storage_failed _ opened,
          ap (λ (r : Spawned S T). r.tasks) (sym (ok_inj same))
              ∙ run-tasks T S (with_registry S server registry) events
              ∙ ap
                  (λ p.
                    map {B = Task S T}
                      (λ (t : T). record { stream = t; registry = registry; replay_protector = p })
                      (streams T (until_stop T events)))
                  protector,
        )
