-- ===== src/Tcp/Loopback/Join.antt =====
-- A client that is frozen over a link to a server that has its map already, and then updated.
use syncstate.Prelude.{
  ℕ, ◌≤◌, ◌<◌, ◌≡◌, refl, ap, sym, ◌∙◌, min, some, List, [], ok, lookup, arith, subst,
}
use syncstate.HashMap.{IterOrder, Distinct}
use syncstate.Traits.{StateMapKey, StateMapValue}
use syncstate.Bincode.{Codec}
use syncstate.StateMap.Defs
use syncstate.StateMap.Defs.{StateMap, Hash}
use syncstate.StateMap.Freeze.{Sha256, calculate_hash, freeze}
use syncstate.StateMap.History.{IsMaster, snapshot}
use syncstate.StateMap.Sync.{SameContents}
use syncstate.StateMap.Update.{set_update_id}
use syncstate.Tcp.Hooks.{ServerMap, new_mutex}
use syncstate.Tcp.Messages.{
  TcpStateServerRequestWrapper, TcpStateServerResponse, get_update_id, get_diff, update_id,
}
use syncstate.Tcp.Server.{TcpStateServer, Task, hash_discrete, handle_get_update_id}
use syncstate.Tcp.Server.Requests.{
  process_request, start_request, process_locked, complete, poisons,
}
use syncstate.Tcp.Remote.{TcpStateRemote, question, init_hashed, after_lookup, tcp_remote}
use syncstate.Tcp.Loopback.{quiet, link}
use syncstate.Tcp.Loopback.Init.{Carries, Returns, send_request_of_call}
use syncstate.Tcp.Loopback.Prepared.{pushed, freeze-pushed}
use syncstate.Tcp.Loopback.Updates.{DiffReturns, set_update_id_over_link}

module _ {K T E : Type 0} ⦃key : StateMapKey K⦄ ⦃value : StateMapValue T⦄ ⦃sha : Sha256⦄
    ⦃order : IterOrder K T key.eq_dec⦄ ⦃entries : Codec (List (K × T))⦄ ⦃events : Codec E⦄ where
  get_update_id_known :
      (h : Hash) (serv : TcpStateServer K T E) (m : ServerMap K T)
      → lookup hash_discrete h serv.statemaps ≡ some (new_mutex m)
      → process_request (get_update_id h) (new_mutex serv)
        ≡ (ok (update_id m.update_id), new_mutex serv, [])
  unfolding process_request start_request process_locked complete new_mutex handle_get_update_id
      poisons Defs.get_update_id
  get_update_id_known h serv m found = rw (handle_get_update_id, found) refl

module _ {K T E : Type 0} ⦃key : StateMapKey K⦄ ⦃value : StateMapValue T⦄ ⦃sha : Sha256⦄
    ⦃order : IterOrder K T key.eq_dec⦄ ⦃entries : Codec (List (K × T))⦄ ⦃events : Codec E⦄
    ⦃requests : Codec TcpStateServerRequestWrapper⦄ ⦃responses : Codec TcpStateServerResponse⦄
    (limit : ℕ) where
  -- `init` asks whether the server has the map, and sends nothing if so.
  init_known_over_link :
      (r : TcpStateRemote) (c : StateMap K T TcpStateRemote) (h : Hash)
      (serv : TcpStateServer K T E) (tasks : List (Task K T E)) (m : ServerMap K T)
      → 4 ≤ limit
      → serv.password ≡ r.password
      → c.hash ≡ some h
      → lookup hash_discrete h serv.statemaps ≡ some (new_mutex m)
      → Carries limit r (get_update_id h)
      → Returns limit (update_id m.update_id)
      → (tcp_remote (link {K = K} {T = T} {E = E} limit)).init r c (quiet (new_mutex serv) tasks)
        ≡ (ok tt, quiet (new_mutex serv) tasks)
  unfolding tcp_remote init_hashed after_lookup
  init_known_over_link r c h serv tasks m four same hashed found asks told =
      ap
        (λ o. init_hashed (link {K = K} {T = T} {E = E} limit) o r c (quiet (new_mutex serv) tasks))
        hashed
      ∙ ap (λ x. question x (λ resp w. after_lookup (link limit) resp r h c w))
          (send_request_of_call limit r (get_update_id h) serv tasks (update_id m.update_id)
            (new_mutex serv) four same asks told (get_update_id_known h serv m found))

  -- A client joins late. Entries with distinct keys were pushed to it, in whatever order; a server that
  -- is not poisoned and has the client's password has, under their digest, a master whose contents at
  -- update id 0 are these entries, and which may have changed since. The client is frozen over a link,
  -- and then asks for the changes up to `u`, which is not 0. Changes, requests and answers can be
  -- encoded, and sent at once by a `write` that takes at least four bytes. Then `freeze` succeeds and
  -- leaves server and link as they were, and after `set_update_id` the client reads as the master does
  -- at `u`, or at the master's own id if that is smaller.
  pub join_over_link :
      (r : TcpStateRemote) (l : List (K × T)) (h : Hash) (serv : TcpStateServer K T E)
      (tasks : List (Task K T E)) (m : ServerMap K T) (u : ℕ)
      → Distinct key.eq_dec l
      → (calculate_hash (pushed r l)).0 ≡ ok h
      → 4 ≤ limit
      → serv.password ≡ r.password
      → lookup hash_discrete h serv.statemaps ≡ some (new_mutex m)
      → IsMaster m
      → SameContents l (snapshot m 0)
      → 0 < u
      → Carries limit r (get_update_id h)
      → Returns limit (update_id m.update_id)
      → Carries limit r (get_diff h 0 u)
      → DiffReturns limit 0 u m
      → ((freeze (tcp_remote (link limit)) (pushed r l) (quiet (new_mutex serv) tasks)).0 ≡ ok tt)
        × ((freeze (tcp_remote (link limit)) (pushed r l) (quiet (new_mutex serv) tasks)).2
            ≡ quiet (new_mutex serv) tasks)
        × SameContents
            (set_update_id
              (tcp_remote (link limit))
              u
              (freeze (tcp_remote (link limit)) (pushed r l) (quiet (new_mutex serv) tasks)).1
              (freeze
                (tcp_remote (link limit))
                (pushed r l)
                (quiet (new_mutex serv) tasks)).2).1.contents
            (snapshot m (min u m.update_id))
  join_over_link r l h serv tasks m u d digests four same found master agrees ahead asks told sends
        returns =
      let remotes = tcp_remote {K = K} {T = T} (link {K = K} {T = T} {E = E} limit) in
      let w = quiet (new_mutex serv) tasks in
      let (done, frozen, after) = freeze-pushed remotes r l h w w d digests (λ c hashed kept.
        init_known_over_link r c h serv tasks m four same hashed found asks told) in
      let c = (freeze remotes (pushed r l) w).1 in
      let synced =
        set_update_id_over_link limit c u h serv tasks m four
          (same ∙ ap (λ x. x.password) (sym frozen.remote)) found master frozen.hashed
          (omega (arith, frozen.starts)) (omega (arith, frozen.starts))
          (λ q.
            frozen.contents q
            ∙ agrees q
            ∙ ap (λ n. lookup key.eq_dec q (snapshot m n)) (sym frozen.starts))
          (subst (λ n. Carries limit c.remote (get_diff h n u)) (sym frozen.starts)
            (subst (λ x. Carries limit x (get_diff h 0 u)) (sym frozen.remote) sends))
          (subst (λ n. DiffReturns limit n u m) (sym frozen.starts) returns) in
      (
        done,
        after,
        λ q.
            ap (λ x. lookup key.eq_dec q (set_update_id remotes u c x).1.contents) after
            ∙ synced.0 q,
      )
