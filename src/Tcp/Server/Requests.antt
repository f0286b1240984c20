-- ===== src/Tcp/Server/Requests.antt =====
-- `process_request` of src/tcp/server.rs: what it does under its first lock, and the whole of it.
use syncstate.Prelude.{true, List, [], Outcome, ok, err, panic, if◌then◌else◌, inl, inr, ◌⊎◌}
use syncstate.HashMap.{IterOrder}
use syncstate.Traits.{StateMapKey, StateMapValue}
use syncstate.Bincode.{Codec}
use syncstate.StateMap.Freeze.{Sha256}
use syncstate.Tcp.Hooks.{Mutex, new_mutex, poison_error}
use syncstate.Tcp.Messages.{
  TcpStateServerRequest, TcpStateServerResponse, get_update_id, event, get_diff, init,
}
use syncstate.Tcp.Server.{
  TcpStateServer, TcpStateServerError, Task, handle_get_update_id, handle_event, handle_get_diff,
  to_mutex_poison_err,
}
use syncstate.Tcp.Server.Init.{PendingInit, begin_init, finish_init}

-- What a call leaves: its answer, the server, and the threads that it spawned.
abbrev pub Handled : Type 0 → Type 0 → Type 0 → Type 0
Handled K T E =
    Outcome TcpStateServerError TcpStateServerResponse
    × Mutex (TcpStateServer K T E)
    × List (Task K T E)

-- A panic while the server's lock is held poisons it.
unfoldable pub poisons :
    {A : Type 0} → Outcome TcpStateServerError TcpStateServerResponse → A → Mutex A
unfolding new_mutex
poisons panic serv = record { inner = serv; poisoned = true }
poisons (ok a) serv = new_mutex serv
poisons (err e) serv = new_mutex serv

-- The first part of an `Init` drops the lock.
unfoldable pub init_begun :
    {K T E : Type 0}
    → (TcpStateServerResponse ⊎ PendingInit K T) × TcpStateServer K T E
    → (Outcome TcpStateServerError TcpStateServerResponse ⊎ PendingInit K T)
      × Mutex (TcpStateServer K T E)
      × List (Task K T E)
unfolding new_mutex
init_begun (inl answer, serv) = (inl (ok answer), new_mutex serv, [])
init_begun (inr pending, serv) = (inr pending, new_mutex serv, [])

module _ {K T E : Type 0} ⦃key : StateMapKey K⦄ ⦃value : StateMapValue T⦄ ⦃sha : Sha256⦄
    ⦃order : IterOrder K T key.eq_dec⦄ ⦃entries : Codec (List (K × T))⦄ ⦃events : Codec E⦄ where
  -- The `match` under the lock: what it answers, or what is left of an `Init` once it let go.
  unfoldable pub process_locked :
      TcpStateServerRequest
      → TcpStateServer K T E
      → (Outcome TcpStateServerError TcpStateServerResponse ⊎ PendingInit K T)
        × Mutex (TcpStateServer K T E)
        × List (Task K T E)
  unfolding handle_get_update_id handle_event handle_get_diff begin_init init_begun poisons
  process_locked (get_update_id hash) serv =
      let answer = handle_get_update_id hash serv in (inl answer, poisons answer serv, [])
  process_locked (event hash evt_data) serv =
      let (answer, tasks) = handle_event hash evt_data serv in
      (inl answer, poisons answer serv, tasks)
  process_locked (get_diff hash from_update_id upto_update_id) serv =
      let (answer, serv') = handle_get_diff hash from_update_id upto_update_id serv in
      (inl answer, poisons answer serv', [])
  process_locked (init hash init_data) serv = init_begun (begin_init hash init_data serv)

  -- The first lock; it fails if the server is poisoned.
  unfoldable pub start_request :
      TcpStateServerRequest
      → Mutex (TcpStateServer K T E)
      → (Outcome TcpStateServerError TcpStateServerResponse ⊎ PendingInit K T)
        × Mutex (TcpStateServer K T E)
        × List (Task K T E)
  unfolding process_locked to_mutex_poison_err
  start_request request server =
      if server.poisoned
      then (inl (err (to_mutex_poison_err poison_error)), server, [])
      else process_locked request server.inner

  -- After the first lock; `server` is not touched by other threads in between.
  unfoldable pub complete :
      (Outcome TcpStateServerError TcpStateServerResponse ⊎ PendingInit K T)
        × Mutex (TcpStateServer K T E)
        × List (Task K T E)
      → Handled K T E
  unfolding finish_init
  complete (inl answer, server, tasks) = (answer, server, tasks)
  complete (inr pending, server, tasks) =
      let (answer, server') = finish_init pending server in (answer, server', tasks)

  -- A request that no other thread interrupts.
  unfoldable pub process_request :
      TcpStateServerRequest → Mutex (TcpStateServer K T E) → Handled K T E
  unfolding start_request complete
  process_request request server = complete (start_request request server)
