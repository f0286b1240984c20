-- ===== src/Tcp/Sync.antt =====
-- A slave that is updated over TCP from a server.
use syncstate.Prelude.{
  ℕ, ◌<◌, ◌≤◌, min, ◌≡◌, refl, some, List, Outcome, ok, err, panic, map_err, ◌>>=◌, ap, ◌∙◌, lookup,
  String, ◌⊎◌,
}
use syncstate.HashMap.{IterOrder}
use syncstate.Traits.{StateMapKey, StateMapValue}
use syncstate.Bincode.{Codec}
use syncstate.Diff
use syncstate.Diff.{Diff}
use syncstate.StateMap.Defs.{StateMap, Hash, empty_diff}
use syncstate.StateMap.Freeze.{Sha256}
use syncstate.StateMap.GetDiff
use syncstate.StateMap.History.{IsMaster, snapshot}
use syncstate.StateMap.Sync.{SameContents}
use syncstate.StateMap.Update.{set_update_id}
use syncstate.StateMap.Update.Slave.{set_update_id-sync}
use syncstate.Tcp.Hooks.{ServerMap, new_mutex}
use syncstate.Tcp.Messages.{TcpStateServerRequestWrapper, TcpStateServerResponse, get_diff, diff}
use syncstate.Tcp.Server.{
  TcpStateServer, hash_discrete, handle_get_diff, lock_and_diff, answer_diff, encode_error,
}
use syncstate.Tcp.Server.Requests.{process_request, start_request, process_locked, complete}
use syncstate.Tcp.Server.Stream.{TlsStream}
use syncstate.Tcp.Remote.{
  TcpStateRemote, send_request, question, received_diff, fetch_updates, tcp_remote,
}

module _ {A B W : Type 0} where
  question-ok :
      (x : Outcome String A × W) (next : A → W → Outcome String B × W) (a : A)
      → x.0 ≡ ok a
      → (question x next).0 ≡ (next a x.1).0
  question-ok (ok b, w) next a h = ap (λ o. (next_of o).0) h
    where
      next_of : Outcome String A → Outcome String B × W
      next_of (ok a) = next a w
      next_of (err e) = (err e, w)
      next_of panic = (panic, w)
  question-ok (err e, w) next a h = absurd cc
  question-ok (panic, w) next a h = absurd cc

module _ {K T E W : Type 0} ⦃key : StateMapKey K⦄ ⦃value : StateMapValue T⦄ ⦃sha : Sha256⦄
    ⦃order : IterOrder K T key.eq_dec⦄ ⦃entries : Codec (List (K × T))⦄ ⦃events : Codec E⦄
    ⦃requests : Codec TcpStateServerRequestWrapper⦄ ⦃responses : Codec TcpStateServerResponse⦄
    (stream : TlsStream W) where
  pub handle_get_diff-found :
      (hash : Hash) (f u : ℕ) (serv : TcpStateServer K T E) (s : ServerMap K T)
      → lookup hash_discrete hash serv.statemaps ≡ some (new_mutex s)
      → handle_get_diff hash f u serv ≡ answer_diff hash (new_mutex s) (GetDiff.get_diff f u s) serv
  unfolding handle_get_diff lock_and_diff new_mutex
  handle_get_diff-found hash f u serv s found = rw (found, handle_get_diff) refl

  -- The server's answer to a request for a diff that its map has.
  pub process_request-get_diff :
      (hash : Hash) (f u : ℕ) (serv : TcpStateServer K T E) (s : ServerMap K T) (d : Diff K T)
      (bytes : List ℕ)
      → lookup hash_discrete hash serv.statemaps ≡ some (new_mutex s)
      → GetDiff.get_diff f u s ≡ ok d
      → entries.encode d.diff ≡ ok bytes
      → (process_request (get_diff hash f u) (new_mutex serv)).0
        ≡ ok (diff d.from_update_id d.upto_update_id d.is_full bytes)
  unfolding process_request start_request process_locked complete new_mutex answer_diff
      Diff.get_diff Diff.is_full_update
  process_request-get_diff hash f u serv s d bytes found has encoded =
      ap (λ x. x.0) (handle_get_diff-found hash f u serv s found)
      ∙ ap (λ o. (answer_diff hash (new_mutex s) o serv).0) has
      ∙ ap
          (λ o.
            map_err encode_error o >>= λ b. ok (diff d.from_update_id d.upto_update_id d.is_full b))
          encoded

  -- A remote that receives the server's answer returns the diff that `get_diff` of the server's map
  -- returns.
  pub fetch_updates-get_diff :
      (r : TcpStateRemote) (hash : Hash) (f u : ℕ) (serv : TcpStateServer K T E) (s : ServerMap K T)
      (w : W) (d : Diff K T) (bytes : List ℕ)
      → lookup hash_discrete hash serv.statemaps ≡ some (new_mutex s)
      → ((resp : TcpStateServerResponse)
          → (process_request (get_diff hash f u) (new_mutex serv)).0 ≡ ok resp
          → (send_request stream r (get_diff hash f u) w).0 ≡ ok resp)
      → GetDiff.get_diff f u s ≡ ok d
      → entries.encode d.diff ≡ ok bytes
      → (fetch_updates stream r f u hash w).0 ≡ ok d
  unfolding fetch_updates received_diff Diff.new
  fetch_updates-get_diff r hash f u serv s w d bytes found delivered has encoded =
      question-ok (send_request stream r (get_diff hash f u) w) _ _
        (delivered _ (process_request-get_diff hash f u serv s d bytes found has encoded))
      ∙ ap (λ o. o >>= λ l. ok (Diff.new l d.is_full d.from_update_id d.upto_update_id))
          (entries.decode-encode d.diff bytes encoded)

  -- A frozen slave asks over TCP for the changes up to `u`. The server has a master under the slave's
  -- hash, with which the slave agrees at its own update id; the server's answer to the request for
  -- these changes is delivered, and the list of the changes can be encoded. Then the slave agrees
  -- with the master at `u`, or at the master's own id if that is smaller, and takes that id, unless
  -- there was nothing to write, which is the error `EmptyDiff` and leaves the slave as it was.
  set_update_id-tcp :
      (slave : StateMap K T TcpStateRemote) (u : ℕ) (w : W) (h : Hash) (serv : TcpStateServer K T E)
      (master : ServerMap K T)
      → lookup hash_discrete h serv.statemaps ≡ some (new_mutex master)
      → IsMaster master
      → slave.hash ≡ some h
      → slave.update_id ≤ master.update_id
      → slave.update_id < u
      → SameContents slave.contents (snapshot master slave.update_id)
      → ((resp : TcpStateServerResponse)
          → (process_request (get_diff h slave.update_id u) (new_mutex serv)).0 ≡ ok resp
          → (send_request stream slave.remote (get_diff h slave.update_id u) w).0 ≡ ok resp)
      → ((d : Diff K T)
          → GetDiff.get_diff slave.update_id u master ≡ ok d
          → (bytes : List ℕ) × (entries.encode d.diff ≡ ok bytes))
      → SameContents
          (set_update_id (tcp_remote stream) u slave w).1.contents
          (snapshot master (min u master.update_id))
        × ((((set_update_id (tcp_remote stream) u slave w).0 ≡ ok tt)
              × ((set_update_id (tcp_remote stream) u slave w).1.update_id
                  ≡ min u master.update_id))
            ⊎ (((set_update_id (tcp_remote stream) u slave w).0 ≡ err empty_diff)
                × ((set_update_id (tcp_remote stream) u slave w).1 ≡ slave)))
  unfolding tcp_remote
  set_update_id-tcp slave u w h serv master found m hashed behind ahead same delivered encodes =
      set_update_id-sync (tcp_remote stream) master slave u w h m hashed behind ahead same (λ d has.
        let (bytes, encoded) = encodes d has in
        fetch_updates-get_diff slave.remote h slave.update_id u serv master w d bytes found
          delivered has encoded)
