-- ===== src/Tcp/Server/ListenSteps.antt =====
-- A server that listens, and the steps of `Tcp.Server.Steps`.
use syncstate.Prelude.{
  if_intro, List, [], ◌∷◌, ◌++◌, append-nil, append_assoc, Outcome, ok, err, panic, inl, inr, ◌⊎◌,
  if_pos, if_neg, subst,
}
use syncstate.HashMap.{IterOrder}
use syncstate.Traits.{StateMapKey, StateMapValue}
use syncstate.Bincode.{Codec}
use syncstate.StateMap.Freeze.{Sha256}
use syncstate.Tcp.Hooks.{Mutex}
use syncstate.Tcp.Messages.{
  TcpStateServerRequest, TcpStateServerRequestWrapper, TcpStateServerResponse, incorrect_password,
}
use syncstate.Tcp.Server.{TcpStateServer, TcpStateServerError, Task, hash_discrete}
use syncstate.Tcp.Server.Init.{PendingInit, finish_init}
use syncstate.Tcp.Server.Requests.{Handled, process_request, start_request, complete}
use syncstate.Tcp.Server.Steps.{System, Reachable, serve_request, finish_pending, begun_inits}
use syncstate.Tcp.Server.Stream.{
  TlsStream, handle_stream, after_read, check_password, answer_request, read_stream, write_response,
  answer_request-Follows,
}
use syncstate.Tcp.Server.Listen.{handle_streams}

-- A system after one more call.
abbrev pub after_call :
    {K T E : Type 0}
    → System K T E
    → Mutex (TcpStateServer K T E)
    → List (Task K T E)
    → System K T E
after_call σ server tasks = record { server = server; tasks = σ.tasks ++ tasks; inits = σ.inits }

module _ {K T E : Type 0} ⦃key : StateMapKey K⦄ ⦃value : StateMapValue T⦄ ⦃sha : Sha256⦄
    ⦃order : IterOrder K T key.eq_dec⦄ ⦃entries : Codec (List (K × T))⦄ ⦃events : Codec E⦄ where
  pub unchanged-Reachable :
      (σ σ' : System K T E) → Reachable σ σ' → Reachable σ (after_call σ' σ'.server [])
  unchanged-Reachable σ σ' path = rw append-nil path

  complete-Reachable :
      (σ σ' : System K T E)
      (x : (Outcome TcpStateServerError TcpStateServerResponse ⊎ PendingInit K T)
        × Mutex (TcpStateServer K T E)
        × List (Task K T E))
      → Reachable σ
          (record { server = x.1; tasks = σ'.tasks ++ x.2; inits = σ'.inits ++ begun_inits x.0 })
      → Reachable σ (after_call σ' (complete x).1 (complete x).2)
  unfolding complete
  complete-Reachable σ σ' (inl answer, server, tasks) served =
      subst (λ l. Reachable σ (record { server = server; tasks = σ'.tasks ++ tasks; inits = l }))
        (append-nil σ'.inits) served
  complete-Reachable σ σ' (inr pending, server, tasks) served =
      subst
        (λ l. Reachable σ (record {
          server = (finish_init pending server).1;
          tasks = σ'.tasks ++ tasks;
          inits = l;
        }))
        (append-nil σ'.inits) (finish_pending server (σ'.tasks ++ tasks) σ'.inits pending [] served)

  pub process_request-Reachable :
      (σ σ' : System K T E) (r : TcpStateServerRequest)
      → Reachable σ σ'
      → Reachable σ (after_call σ' (process_request r σ'.server).1 (process_request r σ'.server).2)
  unfolding process_request
  process_request-Reachable σ σ' r path =
      complete-Reachable σ σ' (start_request r σ'.server) (serve_request σ' r path)

module _ {K T E W : Type 0} ⦃key : StateMapKey K⦄ ⦃value : StateMapValue T⦄ ⦃sha : Sha256⦄
    ⦃order : IterOrder K T key.eq_dec⦄ ⦃entries : Codec (List (K × T))⦄ ⦃events : Codec E⦄
    ⦃requests : Codec TcpStateServerRequestWrapper⦄ ⦃responses : Codec TcpStateServerResponse⦄ where
  check_password-Reachable :
      (stream : TlsStream W) (σ σ' : System K T E) (req : TcpStateServerRequestWrapper) (w : W)
      → Reachable σ σ'
      → Reachable σ (
          after_call σ'
            (check_password stream req σ'.server w).0.1
            (check_password stream req σ'.server w).0.2)
  unfolding check_password
  check_password-Reachable stream σ σ' req w path =
      let done = process_request req.event σ'.server in
      let answer = answer_request stream done w in
      let refused = write_response stream incorrect_password w in
      let f = answer_request-Follows stream done w in
      elim (hash_discrete σ'.server.inner.password req.password) [
        | yes e ↦
            rw
              (if_pos (hash_discrete σ'.server.inner.password req.password) e answer
                ((refused.0, σ'.server, []), refused.1))
              (rw (f.0, f.1) (process_request-Reachable σ σ' req.event path))
        | no n ↦
            rw
              (if_neg (hash_discrete σ'.server.inner.password req.password) n answer
                ((refused.0, σ'.server, []), refused.1))
              (unchanged-Reachable σ σ' path)
      ]

  after_read-Reachable :
      (stream : TlsStream W) (σ σ' : System K T E)
      (x : Outcome TcpStateServerError TcpStateServerRequestWrapper × W)
      → Reachable σ σ'
      → Reachable σ
          (after_call σ' (after_read stream x σ'.server).0.1 (after_read stream x σ'.server).0.2)
  unfolding after_read
  after_read-Reachable stream σ σ' (ok req, w) path =
      check_password-Reachable stream σ σ' req w path
  after_read-Reachable stream σ σ' (err e, w) path = unchanged-Reachable σ σ' path
  after_read-Reachable stream σ σ' (panic, w) path = unchanged-Reachable σ σ' path

  handle_stream-Reachable :
      (stream : TlsStream W) (σ σ' : System K T E) (w : W)
      → Reachable σ σ'
      → Reachable σ (
          after_call σ'
            (handle_stream stream σ'.server w).0.1
            (handle_stream stream σ'.server w).0.2)
  unfolding handle_stream
  handle_stream-Reachable stream σ σ' w path =
      if_intro (λ (x : Handled K T E × W). Reachable σ (after_call σ' x.0.1 x.0.2))
        σ'.server.poisoned _ _ (unchanged-Reachable σ σ' path)
        (after_read-Reachable stream σ σ' (read_stream stream w) path)

  -- Serving connections one after the other is one of the interleavings: what a reachable system
  -- becomes is reachable, so that whatever holds of every reachable system holds while a server runs.
  pub handle_streams-Reachable :
      (streams : List (TlsStream W)) (σ σ' : System K T E) (w : W)
      → Reachable σ σ'
      → Reachable σ (
          after_call σ'
            (handle_streams streams σ'.server w).0
            (handle_streams streams σ'.server w).1)
  unfolding handle_streams
  handle_streams-Reachable [] σ σ' w path = unchanged-Reachable σ σ' path
  handle_streams-Reachable (stream ∷ streams) σ σ' w path =
      let (handled, w') = handle_stream stream σ'.server w in
      let next = after_call σ' handled.1 handled.2 in
      let rest = handle_streams streams handled.1 w' in
      subst (λ l. Reachable σ (record { server = rest.0; tasks = l; inits = σ'.inits }))
        (append_assoc σ'.tasks handled.2 rest.1)
        (handle_streams-Reachable streams σ next w' (handle_stream-Reachable stream σ σ' w path))
