-- ===== src/Tcp/Server/Steps.antt =====
-- A server with its threads: the requests that are served, the `Init`s that have let go of the lock
-- and the threads that run hooks, in any interleaving. A hook and each locked part of a request is
-- one step.
use syncstate.Prelude.{
  some, none, Option, List, [], ◌∷◌, ◌++◌, lookup, Outcome, ok, err, panic, inl, inr, ◌⊎◌, String,
}
use syncstate.HashMap.{IterOrder, insert}
use syncstate.Bincode.{Codec}
use syncstate.Event.{Event}
use syncstate.Traits.{StateMapKey, StateMapValue}
use syncstate.StateMap.Defs.{Hash}
use syncstate.StateMap.Freeze.{Sha256}
use syncstate.Tcp.Hooks.{Mutex, Hook, ServerMap}
use syncstate.Tcp.Messages.{TcpStateServerRequest}
use syncstate.Tcp.Server.{TcpStateServer, Task, hash_discrete}
use syncstate.Tcp.Server.Init.{PendingInit, finish_init}
use syncstate.Tcp.Server.Requests.{start_request}

module _ {K T E : Type 0} where
  -- The loop over the hooks of a thread goes on unless a hook panics; errors are logged.
  unfoldable pub hooks_left :
      Outcome String (Unit {0}) → Hash → Event E → List (Hook K T E) → List (Task K T E)
  hooks_left (ok a) hash evt hooks = record { statemap = hash; event = evt; hooks = hooks } ∷ []
  hooks_left (err e) hash evt hooks = record { statemap = hash; event = evt; hooks = hooks } ∷ []
  hooks_left panic hash evt hooks = []

  unfoldable pub run_on :
      Task K T E
      → List (Hook K T E)
      → Option (Mutex (ServerMap K T))
      → TcpStateServer K T E
      → TcpStateServer K T E × List (Task K T E)
  unfolding hooks_left insert hash_discrete
  run_on task [] v serv = (serv, [])
  run_on task (hook ∷ hooks) none serv = (serv, [])
  run_on task (hook ∷ hooks) (some v) serv =
      let (result, v') = hook.process_event v task.event in
      (
        record serv { statemaps = insert hash_discrete task.statemap v' serv.statemaps },
        hooks_left result task.statemap task.event hooks,
      )

  -- The next hook of a thread that was spawned for an event. The thread holds its map, so the map is
  -- there.
  unfoldable pub run_hook :
      Task K T E → TcpStateServer K T E → TcpStateServer K T E × List (Task K T E)
  unfolding run_on lookup hash_discrete
  run_hook task serv =
      run_on task task.hooks (lookup hash_discrete task.statemap serv.statemaps) serv

-- A server, its threads that run hooks, and its threads that are in an `Init`.
pub record System (K T E : Type 0) : Type 0 where
  pub server : Mutex (TcpStateServer K T E)
  pub tasks : List (Task K T E)
  pub inits : List (PendingInit K T)

abbrev pub begun_inits : {K T A : Type 0} → A ⊎ PendingInit K T → List (PendingInit K T)
begun_inits (inl answer) = []
begun_inits (inr pending) = pending ∷ []

module _ {K T E : Type 0} ⦃key : StateMapKey K⦄ ⦃value : StateMapValue T⦄ ⦃sha : Sha256⦄
    ⦃order : IterOrder K T key.eq_dec⦄ ⦃entries : Codec (List (K × T))⦄ ⦃events : Codec E⦄ where
  pub data Reachable (σ : System K T E) : System K T E → Type 0 where
    start : Reachable σ σ
    serve_request :
        (σ' : System K T E) (r : TcpStateServerRequest)
        → Reachable σ σ'
        → Reachable σ (record {
          server = (start_request r σ'.server).1;
          tasks = σ'.tasks ++ (start_request r σ'.server).2;
          inits = σ'.inits ++ begun_inits (start_request r σ'.server).0;
        })
    finish_pending :
        (server : Mutex (TcpStateServer K T E)) (tasks : List (Task K T E))
        (before : List (PendingInit K T)) (pending : PendingInit K T)
        (after : List (PendingInit K T))
        → Reachable σ (record { server = server; tasks = tasks; inits = before ++ pending ∷ after })
        → Reachable σ (record {
          server = (finish_init pending server).1;
          tasks = tasks;
          inits = before ++ after;
        })
    run_next_hook :
        (server : Mutex (TcpStateServer K T E)) (inits : List (PendingInit K T))
        (before : List (Task K T E)) (task : Task K T E) (after : List (Task K T E))
        → Reachable σ (record { server = server; tasks = before ++ task ∷ after; inits = inits })
        → Reachable σ (record {
          server = record server { inner = (run_hook task server.inner).0 };
          tasks = before ++ ((run_hook task server.inner).1 ++ after);
          inits = inits;
        })
