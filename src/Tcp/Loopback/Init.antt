-- ===== src/Tcp/Loopback/Init.antt =====
-- A client that is frozen over a link to a server that does not have its map.
use syncstate.Prelude.{
  ℕ, ◌≤◌, ◌≡◌, refl, ap, ◌∙◌, none, some, List, [], ◌++◌, append-nil, ok, lookup,
}
use syncstate.HashMap.{extend, IterOrder, Distinct}
use syncstate.Traits.{StateMapKey, StateMapValue}
use syncstate.Bincode.{Codec}
use syncstate.StateMap.Defs.{StateMap, Hash, into_iter}
use syncstate.StateMap.Freeze.{Sha256, calculate_hash, freeze}
use syncstate.Tcp.Hooks.{Mutex, ServerMap, new_mutex}
use syncstate.Tcp.Messages.{
  TcpStateServerRequest, TcpStateServerRequestWrapper, TcpStateServerResponse, get_update_id, init,
  init_success, hash_not_found,
}
use syncstate.Tcp.Server.{TcpStateServer, Task, hash_discrete, handle_get_update_id}
use syncstate.Tcp.Server.Init.{run_init_hooks}
use syncstate.Tcp.Server.InitLaws.{IsRebuilt, registered, init-IsRebuilt}
use syncstate.Tcp.Server.Requests.{
  process_request, start_request, process_locked, complete, poisons,
}
use syncstate.Tcp.Remote.{
  TcpStateRemote, send_request, question, init_hashed, after_lookup, send_init, inited, tcp_remote,
}
use syncstate.Tcp.Loopback.{Link, quiet, link}
use syncstate.Tcp.Loopback.Exchange.{Fits, send_request-process_request}
use syncstate.Tcp.Loopback.Prepared.{
  sent_entries, pushed, pushed-IsPrepared, IsFrozenAt, freeze-pushed, sent_entries-SameContents,
  sent_entries-Describes,
}

module _ ⦃requests : Codec TcpStateServerRequestWrapper⦄ (limit : ℕ) where
  -- The request can be sent at once.
  abbrev pub Carries : TcpStateRemote → TcpStateServerRequest → Type 0
  Carries r request =
      (bytes : List ℕ) × (requests.encode (record { password = r.password; event = request })
        ≡ ok bytes)
      × Fits limit bytes

module _ ⦃responses : Codec TcpStateServerResponse⦄ (limit : ℕ) where
  -- The answer can be sent at once.
  abbrev pub Returns : TcpStateServerResponse → Type 0
  Returns resp = (bytes : List ℕ) × (responses.encode resp ≡ ok bytes) × Fits limit bytes

module _ {K T E : Type 0} ⦃key : StateMapKey K⦄ ⦃value : StateMapValue T⦄ ⦃sha : Sha256⦄
    ⦃order : IterOrder K T key.eq_dec⦄ ⦃entries : Codec (List (K × T))⦄ ⦃events : Codec E⦄
    ⦃requests : Codec TcpStateServerRequestWrapper⦄ ⦃responses : Codec TcpStateServerResponse⦄
    (limit : ℕ) where
  -- A request that spawns no thread.
  pub send_request_of_call :
      (r : TcpStateRemote) (request : TcpStateServerRequest) (serv : TcpStateServer K T E)
      (tasks : List (Task K T E)) (resp : TcpStateServerResponse)
      (after : Mutex (TcpStateServer K T E))
      → 4 ≤ limit
      → serv.password ≡ r.password
      → Carries limit r request
      → Returns limit resp
      → process_request request (new_mutex serv) ≡ (ok resp, after, [])
      → send_request (link limit) r request (quiet (new_mutex serv) tasks)
        ≡ (ok resp, quiet after tasks)
  unfolding new_mutex
  send_request_of_call r request serv tasks resp after four same (bytes, sent, fits)
        (answer, returned, fits') call =
      send_request-process_request limit r request (quiet (new_mutex serv) tasks) bytes answer resp
        four refl same sent fits (ap (λ x. x.0) call) returned fits'
      ∙ ap (λ x. (ok resp, quiet x.1 (tasks ++ x.2))) call
      ∙ ap (λ t. (ok resp, quiet after t)) (append-nil tasks)

  get_update_id_unknown :
      (h : Hash) (serv : TcpStateServer K T E)
      → lookup hash_discrete h serv.statemaps ≡ none
      → process_request (get_update_id h) (new_mutex serv) ≡ (ok hash_not_found, new_mutex serv, [])
  unfolding process_request start_request process_locked complete new_mutex handle_get_update_id
      poisons
  get_update_id_unknown h serv unknown = rw (handle_get_update_id, unknown) refl

  init_over_link :
      (r : TcpStateRemote) (c : StateMap K T TcpStateRemote) (h : Hash) (init_data : List ℕ)
      (serv : TcpStateServer K T E) (tasks : List (Task K T E))
      (after : Mutex (TcpStateServer K T E))
      → 4 ≤ limit
      → serv.password ≡ r.password
      → c.hash ≡ some h
      → lookup hash_discrete h serv.statemaps ≡ none
      → entries.encode (sent_entries c) ≡ ok init_data
      → Carries limit r (get_update_id h)
      → Returns limit hash_not_found
      → Carries limit r (init h init_data)
      → Returns limit init_success
      → process_request (init h init_data) (new_mutex serv) ≡ (ok init_success, after, [])
      → (tcp_remote (link {K = K} {T = T} {E = E} limit)).init r c (quiet (new_mutex serv) tasks)
        ≡ (ok tt, quiet after tasks)
  unfolding tcp_remote init_hashed after_lookup send_init inited
  init_over_link r c h init_data serv tasks after four same hashed unknown encoded asks denied sends
        taken call =
      let asked =
        send_request_of_call r (get_update_id h) serv tasks hash_not_found (new_mutex serv) four
          same asks denied (get_update_id_unknown h serv unknown) in
      let inits =
        send_request_of_call r (init h init_data) serv tasks init_success after four same sends
          taken call in
      ap
        (λ o. init_hashed (link {K = K} {T = T} {E = E} limit) o r c (quiet (new_mutex serv) tasks))
        hashed
      ∙ ap (λ x. question x (λ resp w. after_lookup (link limit) resp r h c w)) asked
      ∙ ap
          (λ o.
            question {W = Link K T E} (o, quiet (new_mutex serv) tasks)
              (λ d w.
                question (send_request (link limit) r (init h d) w) (λ resp w2. (inited resp, w2))))
          encoded
      ∙ ap (λ x. question x (λ resp w. (inited resp, w))) inits

  -- A client to which entries with distinct keys were pushed is frozen over a link to a server that
  -- is not poisoned, has its password and no map under the digest of the entries, marked or stored,
  -- and whose init hooks succeed. Entries, requests and answers can be encoded, and sent at once by a
  -- `write` that takes at least four bytes. Then
  -- `freeze` succeeds, the client is frozen under that digest, at update id 0 and with the entries,
  -- and the server has, under the same digest, what its init hooks leave of a master at update id 0
  -- with the same contents.
  pub freeze_over_link :
      (r : TcpStateRemote) (l : List (K × T)) (h : Hash) (init_data : List ℕ)
      (serv : TcpStateServer K T E) (tasks : List (Task K T E))
      → Distinct key.eq_dec l
      → (calculate_hash (pushed r l)).0 ≡ ok h
      → 4 ≤ limit
      → serv.password ≡ r.password
      → lookup hash_discrete h serv.statemaps ≡ none
      → lookup hash_discrete h serv.processed_hashes ≡ none
      → ((m : Mutex (ServerMap K T)) → (run_init_hooks serv.init_hooks m).0 ≡ ok tt)
      → entries.encode (sent_entries (pushed r l)) ≡ ok init_data
      → Carries limit r (get_update_id h)
      → Returns limit hash_not_found
      → Carries limit r (init h init_data)
      → Returns limit init_success
      → (s : ServerMap K T) × IsRebuilt l h s
        × ((freeze (tcp_remote (link limit)) (pushed r l) (quiet (new_mutex serv) tasks)).0 ≡ ok tt)
        × IsFrozenAt r l h
            (freeze (tcp_remote (link limit)) (pushed r l) (quiet (new_mutex serv) tasks)).1
        × ((freeze (tcp_remote (link limit)) (pushed r l) (quiet (new_mutex serv) tasks)).2
            ≡ quiet
                (new_mutex (registered h (run_init_hooks serv.init_hooks (new_mutex s)).1 serv))
                tasks)
  unfolding into_iter
  freeze_over_link r l h init_data serv tasks d digests four same p q hooks encoded asks denied
        sends taken =
      let c = pushed r l in
      let ready = pushed-IsPrepared r l h d digests in
      let described =
        sent_entries-Describes c r l h init_data ready.fresh.distinct d ready.contents digests
          encoded in
      let (s, built, ran, unmarked) =
        init-IsRebuilt h init_data (sent_entries c) r serv described p q hooks in
      let (done, frozen, after) =
        freeze-pushed (tcp_remote (link limit)) r l h (quiet (new_mutex serv) tasks) _ d digests
          (λ c' hashed kept.
            init_over_link r c' h init_data serv tasks _ four same hashed p
              (ap (λ m. entries.encode (order.iter (extend key.eq_dec [] (order.iter m)))) kept
                ∙ encoded)
              asks denied sends taken ran) in
      (
        s,
        record {
          is_master = built.is_master;
          starts = built.starts;
          contents = λ k.
              built.contents k
              ∙ sent_entries-SameContents c ready.fresh.distinct k
              ∙ ready.contents k;
          hashed = built.hashed;
        },
        done,
        frozen,
        after,
      )
