-- ===== src/Tcp/Server/Held.antt =====
-- The threads that run hooks hold maps of the server.
use syncstate.Prelude.{
  ℕ, ◌≤◌, ◌≡◌, some, none, Option, List, [], ◌∷◌, lookup, Outcome, ok, err, panic, inl, inr, arith,
  Option-cases, String,
}
use syncstate.Bincode.{Codec}
use syncstate.Event.{Event, deserialize}
use syncstate.StateMap.Defs.{Hash}
use syncstate.Tcp.Hooks.{Mutex, Hook, ServerMap}
use syncstate.Tcp.Server.{TcpStateServer, Task, hash_discrete, handle_event, spawn_hooks}
use syncstate.Tcp.Server.SafeRequests.{Every}
use syncstate.Tcp.Server.Steps.{run_hook, run_on, hooks_left}
use syncstate.Tcp.Server.Hashes.{known}

module _ {K T E : Type 0} where
  -- The threads of the server, each of which holds a map that the server has.
  abbrev pub HasMap : TcpStateServer K T E → Task K T E → Type 0
  HasMap serv task = known task.statemap serv.statemaps ≡ 1

  pub Every-HasMap :
      (serv serv' : TcpStateServer K T E)
      → ((h : Hash) → known h serv.statemaps ≤ known h serv'.statemaps)
      → ((h : Hash) → known h serv'.statemaps ≤ 1)
      → (tasks : List (Task K T E)) → Every (HasMap serv) tasks
      → Every (HasMap serv') tasks
  Every-HasMap serv serv' grows one [] b = tt
  Every-HasMap serv serv' grows one (t ∷ ts) b = (
    omega (arith, b.0, grows t.statemap, one t.statemap),
    Every-HasMap serv serv' grows one ts b.1,
  )

  spawn_hooks-HasMap :
      (hash : Hash) (hooks : List (Hook K T E)) (o : Outcome String (Event E))
      (serv : TcpStateServer K T E)
      → known hash serv.statemaps ≡ 1
      → Every (HasMap serv) (spawn_hooks hash hooks o).1
  unfolding spawn_hooks
  spawn_hooks-HasMap hash hooks (ok evt) serv h = (h, tt)
  spawn_hooks-HasMap hash hooks (err e) serv h = tt
  spawn_hooks-HasMap hash hooks panic serv h = tt

  pub handle_event-HasMap :
      ⦃codec : Codec E⦄ (hash : Hash) (evt_data : List ℕ) (serv : TcpStateServer K T E)
      → Every (HasMap serv) (handle_event hash evt_data serv).1
  unfolding handle_event
  handle_event-HasMap hash evt_data serv =
      elim (Option-cases (lookup hash_discrete hash serv.statemaps)) [
        | inl gone ↦ rw (gone, handle_event) tt
        | inr (v, found) ↦
            rw (found, handle_event)
              (spawn_hooks-HasMap hash serv.hooks (deserialize evt_data) serv (ground arith))
      ]

  run_on-HasMap :
      (task : Task K T E) (hooks : List (Hook K T E)) (v : Option (Mutex (ServerMap K T)))
      (serv any : TcpStateServer K T E)
      → HasMap any task
      → Every (HasMap any) (run_on task hooks v serv).1
  unfolding run_on hooks_left
  run_on-HasMap task [] v serv any h = tt
  run_on-HasMap task (hook ∷ hooks) none serv any h = tt
  run_on-HasMap task (hook ∷ hooks) (some v) serv any h = left (hook.process_event v task.event).0
    where
      left :
          (result : Outcome String (Unit {0}))
          → Every (HasMap any) (hooks_left result task.statemap task.event hooks)
      left (ok a) = (h, tt)
      left (err e) = (h, tt)
      left panic = tt

  pub run_hook-HasMap :
      (task : Task K T E) (serv : TcpStateServer K T E)
      → HasMap serv task
      → Every (HasMap serv) (run_hook task serv).1
  unfolding run_hook
  run_hook-HasMap task serv h = run_on-HasMap task task.hooks _ serv serv h
