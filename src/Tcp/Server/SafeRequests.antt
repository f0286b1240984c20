-- ===== src/Tcp/Server/SafeRequests.antt =====
-- What becomes of a server's state maps in each step of its threads.
use syncstate.Prelude.{
  ℕ, ◌+◌, ◌<◌, u64_mod, arith, ◌≡◌, refl, some, none, Option, List, [], ◌∷◌, ◌++◌, lookup, Outcome,
  ok, err, panic, inl, inr, ◌⊎◌, Option-cases, Bool-cases, String,
}
use syncstate.HashMap.{IterOrder}
use syncstate.Bincode.{Codec}
use syncstate.Event.{Event, deserialize}
use syncstate.Traits.{StateMapKey, StateMapValue}
use syncstate.StateMap.Defs.{Hash}
use syncstate.StateMap.Freeze.{Sha256}
use syncstate.Tcp.Hooks.{Mutex, Hook, ServerMap, new_mutex}
use syncstate.Tcp.Messages.{
  TcpStateServerRequest, TcpStateServerResponse, get_update_id, event, get_diff, init,
}
use syncstate.Tcp.Server.{
  TcpStateServer, TcpStateServerError, Task, hash_discrete, handle_event, spawn_hooks,
  handle_get_update_id, handle_get_diff,
}
use syncstate.Tcp.Server.Init.{PendingInit, begin_init}
use syncstate.Tcp.Server.Requests.{start_request, process_locked, poisons, init_begun}
use syncstate.Tcp.Server.Safe.{
  Keep, IsServer, IsServer-mono, insert-IsServer, handle_get_diff-IsServer,
}
use syncstate.Tcp.Server.SafeInit.{IsPending, begin_init-IsServer}
use syncstate.Tcp.Server.Steps.{run_hook, run_on, hooks_left}

module _ {A : Type 0} (P : A → Type 0) where
  abbrev pub Every : List A → Type 0
  Every [] = Unit
  Every (a ∷ l) = P a × Every l

  pub Every-append : (l r : List A) → Every l → Every r → Every (l ++ r)
  Every-append [] r hl hr = hr
  Every-append (a ∷ l) r hl hr = (hl.0, Every-append l r hl.1 hr)

  pub Every-parts : (l r : List A) → Every (l ++ r) → Every l × Every r
  Every-parts [] r h = (tt, h)
  Every-parts (a ∷ l) r h = let (hl, hr) = Every-parts l r h.1 in ((h.0, hl), hr)

module _ {K T E : Type 0} ⦃key : StateMapKey K⦄ where
  abbrev pub KeepTask : ℕ → Task K T E → Type 0
  KeepTask k task = Keep k task.hooks

  poisons-IsServer :
      (k a b : ℕ) (o : Outcome TcpStateServerError TcpStateServerResponse)
      (serv : TcpStateServer K T E)
      → IsServer k a b serv
      → IsServer k a b (poisons o serv).inner
  unfolding poisons new_mutex
  poisons-IsServer k a b (ok answer) serv h = h
  poisons-IsServer k a b (err e) serv h = h
  poisons-IsServer k a b panic serv h = h

  spawn_hooks-Keep :
      (k : ℕ) (hash : Hash) (hooks : List (Hook K T E)) (o : Outcome String (Event E))
      → Keep k hooks
      → Every (KeepTask k) (spawn_hooks hash hooks o).1
  unfolding spawn_hooks
  spawn_hooks-Keep k hash hooks (ok evt) h = (h, tt)
  spawn_hooks-Keep k hash hooks (err e) h = tt
  spawn_hooks-Keep k hash hooks panic h = tt

  handle_event-Keep :
      (k a b : ℕ) ⦃codec : Codec E⦄ (hash : Hash) (evt_data : List ℕ) (serv : TcpStateServer K T E)
      → IsServer k a b serv
      → Every (KeepTask k) (handle_event hash evt_data serv).1
  unfolding handle_event
  handle_event-Keep k a b hash evt_data serv h =
      elim (Option-cases (lookup hash_discrete hash serv.statemaps)) [
        | inl gone ↦ rw (gone, handle_event) tt
        | inr (v, found) ↦
            rw (found, handle_event)
              (spawn_hooks-Keep k hash serv.hooks (deserialize evt_data) h.keep)
      ]

  hooks_left-Keep :
      (k : ℕ) (result : Outcome String (Unit {0})) (hash : Hash) (evt : Event E)
      (hooks : List (Hook K T E))
      → Keep k hooks
      → Every (KeepTask k) (hooks_left result hash evt hooks)
  unfolding hooks_left
  hooks_left-Keep k (ok a) hash evt hooks h = (h, tt)
  hooks_left-Keep k (err e) hash evt hooks h = (h, tt)
  hooks_left-Keep k panic hash evt hooks h = tt

  run_on-IsServer :
      (k a b : ℕ) (task : Task K T E) (hooks : List (Hook K T E))
      (v : Option (Mutex (ServerMap K T))) (serv : TcpStateServer K T E)
      → lookup hash_discrete task.statemap serv.statemaps ≡ v
      → Keep k hooks
      → b + k < u64_mod
      → IsServer k a b serv
      → IsServer k a (b + k) (run_on task hooks v serv).0
        × Every (KeepTask k) (run_on task hooks v serv).1
  unfolding run_on
  run_on-IsServer k a b task [] v serv found keep fits h =
      (IsServer-mono k a b (b + k) serv (omega arith) h, tt)
  run_on-IsServer k a b task (hook ∷ hooks) none serv found keep fits h =
      (IsServer-mono k a b (b + k) serv (omega arith) h, tt)
  run_on-IsServer k a b task (hook ∷ hooks) (some v) serv found keep fits h =
      let (result, v') = hook.process_event v task.event in
      (
        insert-IsServer k a (b + k) task.statemap v' serv
            (IsServer-mono k a b (b + k) serv (omega arith) h)
            (keep.0 task.statemap b v task.event (h.stored task.statemap v found) fits),
        hooks_left-Keep k result task.statemap task.event hooks keep.1,
      )

  pub run_hook-IsServer :
      (k a b : ℕ) (task : Task K T E) (serv : TcpStateServer K T E)
      → KeepTask k task
      → b + k < u64_mod
      → IsServer k a b serv
      → IsServer k a (b + k) (run_hook task serv).0 × Every (KeepTask k) (run_hook task serv).1
  unfolding run_hook
  run_hook-IsServer k a b task serv keep fits h =
      run_on-IsServer k a b task task.hooks _ serv refl keep fits h

module _ {K T E : Type 0} ⦃key : StateMapKey K⦄ ⦃value : StateMapValue T⦄ ⦃sha : Sha256⦄
    ⦃order : IterOrder K T key.eq_dec⦄ ⦃entries : Codec (List (K × T))⦄ ⦃events : Codec E⦄ where
  process_locked-IsServer :
      (k a b : ℕ) (r : TcpStateServerRequest) (serv : TcpStateServer K T E)
      → IsServer k a b serv
      → IsServer k a b (process_locked r serv).1.inner
        × Every (KeepTask k) (process_locked r serv).2
        × IsPending k a (process_locked r serv).0
  unfolding process_locked
  process_locked-IsServer k a b (get_update_id hash) serv h =
      (poisons-IsServer k a b (handle_get_update_id hash serv) serv h, tt, tt)
  process_locked-IsServer k a b (event hash evt_data) serv h = (
    poisons-IsServer k a b (handle_event hash evt_data serv).0 serv h,
    handle_event-Keep k a b hash evt_data serv h,
    tt,
  )
  process_locked-IsServer k a b (get_diff hash f u) serv h =
      let (answer, serv') = handle_get_diff hash f u serv in
      (poisons-IsServer k a b answer serv' (handle_get_diff-IsServer k a b hash f u serv h), tt, tt)
  process_locked-IsServer k a b (init hash init_data) serv h =
      begun (begin_init hash init_data serv) (begin_init-IsServer k a b hash init_data serv h)
    where
      begun :
          (r : (TcpStateServerResponse ⊎ PendingInit K T) × TcpStateServer K T E)
          → IsServer k a b r.1 × IsPending k a r.0
          → IsServer k a b (init_begun r).1.inner
            × Every (KeepTask k) (init_begun r).2
            × IsPending k a (init_begun r).0
      begun (inl answer, serv') (h', k) = (h', tt, tt)
      begun (inr pending, serv') (h', k) = (h', tt, k)

  pub start_request-IsServer :
      (k a b : ℕ) (r : TcpStateServerRequest) (server : Mutex (TcpStateServer K T E))
      → IsServer k a b server.inner
      → IsServer k a b (start_request r server).1.inner
        × Every (KeepTask k) (start_request r server).2
        × IsPending k a (start_request r server).0
  unfolding start_request
  start_request-IsServer k a b r server h = elim (Bool-cases server.poisoned) [
    | inl p ↦ rw (p, start_request) (h, tt, tt)
    | inr p ↦ rw (p, start_request) (process_locked-IsServer k a b r server.inner h)
  ]
