-- ===== src/Tcp/Loopback/Updates.antt =====
-- A slave that is updated over a link.
use syncstate.Prelude.{
  ok_inj, ℕ, ◌≤◌, ◌<◌, ◌≡◌, refl, ap, sym, ◌∙◌, min, some, List, ok, err, lookup, ◌⊎◌,
}
use syncstate.HashMap.{IterOrder}
use syncstate.Traits.{StateMapKey, StateMapValue}
use syncstate.Bincode.{Codec}
use syncstate.Diff.{Diff}
use syncstate.StateMap.Defs.{StateMap, Hash, empty_diff}
use syncstate.StateMap.Freeze.{Sha256}
use syncstate.StateMap.GetDiff
use syncstate.StateMap.History.{IsMaster, snapshot}
use syncstate.StateMap.Sync.{SameContents}
use syncstate.StateMap.Update.{set_update_id}
use syncstate.Tcp.Hooks.{ServerMap, new_mutex}
use syncstate.Tcp.Messages.{TcpStateServerRequestWrapper, TcpStateServerResponse, get_diff, diff}
use syncstate.Tcp.Server.{TcpStateServer, Task, hash_discrete}
use syncstate.Tcp.Remote.{TcpStateRemote, fetch_updates, tcp_remote}
use syncstate.Tcp.Sync.{process_request-get_diff, fetch_updates-get_diff}
use syncstate.StateMap.Update.Slave.{set_update_id-sync}
use syncstate.Tcp.Loopback.{quiet, link}
use syncstate.Tcp.Loopback.Exchange.{send_request-process_request}
use syncstate.Tcp.Loopback.Init.{Carries, Returns}

module _ {K T : Type 0} ⦃key : StateMapKey K⦄ ⦃order : IterOrder K T key.eq_dec⦄
    ⦃entries : Codec (List (K × T))⦄ ⦃responses : Codec TcpStateServerResponse⦄ (limit : ℕ) where
  -- The changes from `f` up to `u` that a map has can be encoded, and sent at once.
  abbrev pub DiffReturns : ℕ → ℕ → ServerMap K T → Type 0
  DiffReturns f u s =
      (d : Diff K T)
      → GetDiff.get_diff f u s ≡ ok d
      → (bytes : List ℕ) × (entries.encode d.diff ≡ ok bytes)
        × Returns limit (diff d.from_update_id d.upto_update_id d.is_full bytes)

module _ {K T E : Type 0} ⦃key : StateMapKey K⦄ ⦃value : StateMapValue T⦄ ⦃sha : Sha256⦄
    ⦃order : IterOrder K T key.eq_dec⦄ ⦃entries : Codec (List (K × T))⦄ ⦃events : Codec E⦄
    ⦃requests : Codec TcpStateServerRequestWrapper⦄ ⦃responses : Codec TcpStateServerResponse⦄
    (limit : ℕ) where
  fetch_over_link :
      (r : TcpStateRemote) (h : Hash) (f u : ℕ) (serv : TcpStateServer K T E)
      (tasks : List (Task K T E)) (s : ServerMap K T) (d : Diff K T)
      → 4 ≤ limit
      → serv.password ≡ r.password
      → lookup hash_discrete h serv.statemaps ≡ some (new_mutex s)
      → Carries limit r (get_diff h f u)
      → DiffReturns limit f u s
      → GetDiff.get_diff f u s ≡ ok d
      → (fetch_updates (link limit) r f u h (quiet (new_mutex serv) tasks)).0 ≡ ok d
  unfolding new_mutex
  fetch_over_link r h f u serv tasks s d four same found (bytes, sent, fits) returns has =
      let (entry_bytes, encoded, (answer, returned, fits')) = returns d has in
      let answered =
        process_request-get_diff (link {K = K} {T = T} {E = E} limit) h f u serv s d entry_bytes
          found has encoded in
      let sent_back =
        send_request-process_request limit r (get_diff h f u) (quiet (new_mutex serv) tasks) bytes
          answer _ four refl same sent fits answered returned fits' in
      fetch_updates-get_diff (link {K = K} {T = T} {E = E} limit) r h f u serv s
        (quiet (new_mutex serv) tasks) d entry_bytes found
        (λ resp e. ap (λ x. x.0) sent_back ∙ ap ok (ok_inj (sym answered ∙ e))) has encoded

  -- A frozen slave asks, over a link, for the changes up to an id `u` beyond its own. The server is
  -- not poisoned, has the slave's password and, under the slave's hash, a master that is not behind the
  -- slave and with which the slave agrees at its own update id. Changes, request and answer can be
  -- encoded, and sent at once by a `write` that takes at least four bytes. Then the slave agrees with
  -- the master at `u`, or at the master's own id if that is smaller, and takes that id, unless there
  -- was nothing to write, which is the error `EmptyDiff` and leaves the slave as it was.
  pub set_update_id_over_link :
      (slave : StateMap K T TcpStateRemote) (u : ℕ) (h : Hash) (serv : TcpStateServer K T E)
      (tasks : List (Task K T E)) (master : ServerMap K T)
      → 4 ≤ limit
      → serv.password ≡ slave.remote.password
      → lookup hash_discrete h serv.statemaps ≡ some (new_mutex master)
      → IsMaster master
      → slave.hash ≡ some h
      → slave.update_id ≤ master.update_id
      → slave.update_id < u
      → SameContents slave.contents (snapshot master slave.update_id)
      → Carries limit slave.remote (get_diff h slave.update_id u)
      → DiffReturns limit slave.update_id u master
      → SameContents
          (set_update_id
            (tcp_remote (link limit))
            u
            slave
            (quiet (new_mutex serv) tasks)).1.contents
          (snapshot master (min u master.update_id))
        × ((((set_update_id (tcp_remote (link limit)) u slave (quiet (new_mutex serv) tasks)).0
                ≡ ok tt)
              × ((set_update_id
                    (tcp_remote (link limit))
                    u
                    slave
                    (quiet (new_mutex serv) tasks)).1.update_id
                  ≡ min u master.update_id))
            ⊎ (((set_update_id (tcp_remote (link limit)) u slave (quiet (new_mutex serv) tasks)).0
                  ≡ err empty_diff)
                × ((set_update_id
                      (tcp_remote (link limit))
                      u
                      slave
                      (quiet (new_mutex serv) tasks)).1
                    ≡ slave)))
  unfolding tcp_remote
  set_update_id_over_link slave u h serv tasks master four same found m hashed behind ahead agrees
        sends returns =
      set_update_id-sync (tcp_remote (link {K = K} {T = T} {E = E} limit)) master slave u
        (quiet (new_mutex serv) tasks) h m hashed behind ahead agrees
        (λ d has.
          fetch_over_link slave.remote h slave.update_id u serv tasks master d four same found sends
            returns has)
