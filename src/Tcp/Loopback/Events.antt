-- ===== src/Tcp/Loopback/Events.antt =====
-- An event that a client sends over a link, the thread that runs the hook, and the slave that then
-- asks for the changes.
use syncstate.Prelude.{
  ℕ, ◌+◌, ◌≤◌, ◌<◌, ◌≡◌, refl, ap, sym, ◌∙◌, true, some, List, [], ◌∷◌, ◌++◌, ok, lookup, u64_mod,
  arith, if_pos,
}
use syncstate.HashMap.{IterOrder, insert, contains_key, lookup-insert_self}
use syncstate.Traits.{StateMapKey, StateMapValue}
use syncstate.Bincode.{Codec}
use syncstate.Event.{Event, serialize, deserialize-serialize}
use syncstate.StateMap.Defs.{StateMap, Hash, get}
use syncstate.StateMap.Freeze.{Sha256}
use syncstate.StateMap.History.{IsMaster, snapshot}
use syncstate.StateMap.Modify.{set}
use syncstate.StateMap.Modify.Master.{set_lem}
use syncstate.StateMap.Sync.{SameContents, snapshot_now}
use syncstate.StateMap.Update.{set_update_id}
use syncstate.Tcp.Hooks.{ServerMap, Hook, Mutex, new_mutex}
use syncstate.Tcp.Messages.{
  TcpStateServerRequestWrapper, TcpStateServerResponse, event, get_diff, event_in_process,
}
use syncstate.Tcp.Server.{TcpStateServer, Task, hash_discrete, handle_event, spawn_hooks}
use syncstate.Tcp.Server.Requests.{
  process_request, start_request, process_locked, complete, poisons,
}
use syncstate.Tcp.Server.Steps.{run_hook, run_on}
use syncstate.Tcp.Remote.{TcpStateRemote, send_event, sent_event, question, tcp_remote}
use syncstate.Tcp.Loopback.{Link, quiet, link}
use syncstate.Tcp.Loopback.Exchange.{send_request-process_request}
use syncstate.Tcp.Loopback.Init.{Carries, Returns}
use syncstate.Tcp.Loopback.Updates.{DiffReturns, set_update_id_over_link}

-- The thread that was spawned first runs its next hook.
unfoldable pub run_first : {K T E : Type 0} → Link K T E → Link K T E
unfolding run_hook
run_first l = elim l.tasks [
  | [] ↦ l
  | t ∷ ts ↦
      let (serv, left) = run_hook t l.server.inner in
      record l { server = record l.server { inner = serv }; tasks = left ++ ts }
]

module _ {K T E : Type 0} ⦃key : StateMapKey K⦄ ⦃value : StateMapValue T⦄ ⦃sha : Sha256⦄
    ⦃order : IterOrder K T key.eq_dec⦄ ⦃entries : Codec (List (K × T))⦄ ⦃events : Codec E⦄ where
  abbrev spawned : Hash → Event E → TcpStateServer K T E → Task K T E
  spawned h evt serv = record { statemap = h; event = evt; hooks = serv.hooks }

  process_request-event :
      (h : Hash) (evt : Event E) (bytes : List ℕ) (serv : TcpStateServer K T E)
      (v : Mutex (ServerMap K T))
      → lookup hash_discrete h serv.statemaps ≡ some v
      → serialize evt ≡ ok bytes
      → process_request (event h bytes) (new_mutex serv)
        ≡ (ok event_in_process, new_mutex serv, spawned h evt serv ∷ [])
  unfolding process_request start_request process_locked complete new_mutex handle_event poisons
      spawn_hooks
  process_request-event h evt bytes serv v found e =
      rw (handle_event, found) (rw (deserialize-serialize evt bytes e) refl)

  -- One hook of a thread, on the map that it holds.
  run_hook_on_map :
      (h : Hash) (evt : Event E) (hook : Hook K T E) (serv : TcpStateServer K T E)
      (v v' : Mutex (ServerMap K T))
      → lookup hash_discrete h serv.statemaps ≡ some v
      → serv.hooks ≡ hook ∷ []
      → hook.process_event v evt ≡ (ok tt, v')
      → (run_hook (spawned h evt serv) serv).0
        ≡ record serv { statemaps = insert hash_discrete h v' serv.statemaps }
  unfolding run_hook run_on
  run_hook_on_map h evt hook serv v v' found only result =
      ap (λ o. (run_on (spawned h evt serv) serv.hooks o serv).0) found
      ∙ ap (λ hs. (run_on (spawned h evt serv) hs (some v) serv).0) only
      ∙ ap (λ x. record serv { statemaps = insert hash_discrete h x.1 serv.statemaps }) result

module _ {K T E : Type 0} ⦃key : StateMapKey K⦄ ⦃value : StateMapValue T⦄ ⦃sha : Sha256⦄
    ⦃order : IterOrder K T key.eq_dec⦄ ⦃entries : Codec (List (K × T))⦄ ⦃events : Codec E⦄
    ⦃requests : Codec TcpStateServerRequestWrapper⦄ ⦃responses : Codec TcpStateServerResponse⦄
    (limit : ℕ) where
  -- The client gets the answer, and the server's thread for the event is there.
  send_event_over_link :
      (r : TcpStateRemote) (h : Hash) (evt : Event E) (bytes : List ℕ) (serv : TcpStateServer K T E)
      (v : Mutex (ServerMap K T))
      → 4 ≤ limit
      → serv.password ≡ r.password
      → lookup hash_discrete h serv.statemaps ≡ some v
      → serialize evt ≡ ok bytes
      → Carries limit r (event h bytes)
      → Returns limit event_in_process
      → send_event (link limit) r bytes h (quiet (new_mutex serv) [])
        ≡ (ok tt, quiet (new_mutex serv) (spawned h evt serv ∷ []))
  unfolding send_event sent_event new_mutex
  send_event_over_link r h evt bytes serv v four same found e (sent_bytes, sent, fits)
        (answer, returned, fits') =
      let call = process_request-event h evt bytes serv v found e in
      ap (λ x. question x (λ resp w. (sent_event (link {K = K} {T = T} {E = E} limit) resp, w)))
        (send_request-process_request limit r (event h bytes) (quiet (new_mutex serv) []) sent_bytes
            answer event_in_process four refl same sent fits (ap (λ x. x.0) call) returned fits'
          ∙ ap (λ x. (ok event_in_process, quiet x.1 x.2)) call)

  -- The crate's own example. A server that is not poisoned has a master under the slave's hash, and
  -- the slave, which has the server's password, agrees with the master at its own update id. The
  -- server's only hook writes `v` to a key of the map when it gets the event, and the master's next id
  -- does not overflow. Event, changes, requests and answers can be encoded, and sent at once by a
  -- `write` that takes at least four bytes. The slave sends the event over a link, the server's thread
  -- runs the hook, and the slave asks for the changes beyond the id that the master had. Then the event
  -- is accepted, and the slave reads as the master does after the write; so it has the value `v`.
  pub event_reaches_slave :
      (slave : StateMap K T TcpStateRemote) (h : Hash) (serv : TcpStateServer K T E)
      (master : ServerMap K T) (hook : Hook K T E) (evt : Event E) (bytes : List ℕ) (k : K) (v : T)
      (u : ℕ)
      → 4 ≤ limit
      → serv.password ≡ slave.remote.password
      → lookup hash_discrete h serv.statemaps ≡ some (new_mutex master)
      → IsMaster master
      → contains_key key.eq_dec k master.contents ≡ true
      → master.update_id + 1 < u64_mod
      → serv.hooks ≡ hook ∷ []
      → hook.process_event (new_mutex master) evt ≡ (ok tt, new_mutex (set k v master).1)
      → slave.hash ≡ some h
      → slave.update_id ≤ master.update_id
      → master.update_id < u
      → SameContents slave.contents (snapshot master slave.update_id)
      → serialize evt ≡ ok bytes
      → Carries limit slave.remote (event h bytes)
      → Returns limit event_in_process
      → Carries limit slave.remote (get_diff h slave.update_id u)
      → DiffReturns limit slave.update_id u (set k v master).1
      → ((send_event (link limit) slave.remote bytes h (quiet (new_mutex serv) [])).0 ≡ ok tt)
        × ((q : K)
            → get q
                (set_update_id (tcp_remote (link limit)) u slave (
                  run_first
                    (send_event (link limit) slave.remote bytes h (quiet (new_mutex serv) [])).1)).1
              ≡ get q (set k v master).1)
        × (get k
              (set_update_id (tcp_remote (link limit)) u slave (
                run_first
                  (send_event (link limit) slave.remote bytes h (quiet (new_mutex serv) [])).1)).1
            ≡ some v)
  unfolding new_mutex run_first get
  event_reaches_slave slave h serv master hook evt bytes k v u four same found m here room only
        result hashed behind ahead agrees e sends accepted asks returns =
      let (wrote, m', id', reads, kept) = set_lem k v master m here room in
      let master' = (set k v master).1 in
      let sent =
        send_event_over_link slave.remote h evt bytes serv (new_mutex master) four same found e
          sends accepted in
      let serv' : TcpStateServer K T E = record serv {
        statemaps = insert hash_discrete h (new_mutex master') serv.statemaps;
      } in
      let ran =
        run_hook_on_map h evt hook serv (new_mutex master) (new_mutex master') found only result in
      let left = (run_hook (spawned h evt serv) serv).1 ++ [] in
      let world = ap (λ x. run_first x.1) sent ∙ ap (λ s. quiet (new_mutex s) left) ran in
      let synced =
        set_update_id_over_link limit slave u h serv' left master' four same
          (lookup-insert_self hash_discrete h (new_mutex master') serv.statemaps) m' hashed
          (omega (arith, id')) (omega arith)
          (λ q. agrees q ∙ ap (lookup key.eq_dec q) (sym (kept slave.update_id behind))) asks
          returns in
      let all : (q : K)
          → get q
              (set_update_id (tcp_remote (link limit)) u slave (
                run_first
                  (send_event (link limit) slave.remote bytes h (quiet (new_mutex serv) [])).1)).1
            ≡ get q master' =
        λ q.
          ap (λ w. get q (set_update_id (tcp_remote (link limit)) u slave w).1) world
          ∙ synced.0 q
          ∙ ap (λ n. lookup key.eq_dec q (snapshot master' n)) (omega (arith, id'))
          ∙ sym (snapshot_now master' m' q) in
      (ap (λ x. x.0) sent, all, all k ∙ reads k ∙ if_pos (key.eq_dec k k) refl _ _)
