-- ===== src/Tcp/Server/Connections/Alone.antt =====
-- The thread of a connection that no other thread interrupts, and `handle_stream` of
-- src/tcp/server.rs as one call.
use syncstate.Prelude.{
  arith, ℕ, zero, suc, ◌-◌, ◌≤◌, ite, ◌≡◌, ap, List, [], ◌++◌, append-nil, append_assoc, ◌∷◌,
  Outcome, ok, err, panic, inl, inr, ◌⊎◌, if◌then◌else◌, subst, true, false,
}
use syncstate.HashMap.{IterOrder}
use syncstate.Traits.{StateMapKey, StateMapValue}
use syncstate.Bincode.{Codec}
use syncstate.StateMap.Freeze.{Sha256}
use syncstate.Tcp.Hooks.{Mutex, poison_error}
use syncstate.Tcp.Messages.{
  TcpStateServerRequestWrapper, TcpStateServerResponse, incorrect_password,
}
use syncstate.Tcp.Server.{
  TcpStateServer, TcpStateServerError, Task, hash_discrete, to_mutex_poison_err,
}
use syncstate.Tcp.Server.Init.{PendingInit}
use syncstate.Tcp.Server.Requests.{Handled, start_request, process_request, complete}
use syncstate.Tcp.Server.Stream.{
  TlsStream, read_stream, write_response, handle_stream, after_read, check_password, answer_request,
}
use syncstate.Tcp.Server.Connections.{
  Phase, reading, refusing, asking, answering, returned, connection, begun, Connection, Turn,
  compare_password, write_answer, step, advance, Listening, Serves, turn,
}

module _ {K T E W : Type 0} where
  -- A thread that returned, with what the call of `handle_stream` leaves.
  abbrev finished : TlsStream W → Handled K T E × W → Turn K T E W
  finished stream x =
      (record { stream = stream; world = x.1; phase = returned x.0.0 }, x.0.1, x.0.2)

  -- A turn after which more threads are there.
  abbrev pub preceded : List (Task K T E) → Turn K T E W → Turn K T E W
  preceded tasks x = (x.0, x.1, tasks ++ x.2)

module _ {K T E W : Type 0} ⦃key : StateMapKey K⦄ ⦃value : StateMapValue T⦄ ⦃sha : Sha256⦄
    ⦃order : IterOrder K T key.eq_dec⦄ ⦃entries : Codec (List (K × T))⦄ ⦃events : Codec E⦄
    ⦃requests : Codec TcpStateServerRequestWrapper⦄ ⦃responses : Codec TcpStateServerResponse⦄ where
  -- A number of steps, one after the other.
  abbrev pub alone : ℕ → Connection K T W → Mutex (TcpStateServer K T E) → Turn K T E W
  alone zero c server = (c, server, [])
  alone (suc n) c server =
      let (c', server', tasks) = advance c server in preceded tasks (alone n c' server')

  -- Any number of steps in a row are steps of a listening server.
  pub alone-Serves :
      (Accepts : TlsStream W → Type 0) (ν : Listening K T E W) (n : ℕ)
      (server : Mutex (TcpStateServer K T E)) (tasks : List (Task K T E))
      (before : List (Connection K T W)) (c : Connection K T W)
      → Serves Accepts ν (record { server = server; tasks = tasks; connections = before ++ c ∷ [] })
      → Serves Accepts ν (record {
        server = (alone n c server).1;
        tasks = tasks ++ (alone n c server).2;
        connections = before ++ (alone n c server).0 ∷ [];
      })
  alone-Serves Accepts ν zero server tasks before c run = rw (append-nil tasks) run
  alone-Serves Accepts ν (suc n) server tasks before c run =
      let (c', server', more) = advance c server in
      let next : Serves Accepts ν
          (record { server = server'; tasks = tasks ++ more; connections = before ++ c' ∷ [] }) =
        subst
          (λ l.
            Serves Accepts ν
              (record { server = server'; tasks = tasks ++ more; connections = l ++ c' ∷ [] }))
          (append-nil before) (turn server tasks before c [] run) in
      subst
        (λ l. Serves Accepts ν (record {
          server = (alone n c' server').1;
          tasks = l;
          connections = before ++ (alone n c' server').0 ∷ [];
        }))
        (append_assoc tasks more (alone n c' server').2)
        (alone-Serves Accepts ν n server' (tasks ++ more) before c' next)

module _ {K T E W : Type 0} ⦃key : StateMapKey K⦄ ⦃value : StateMapValue T⦄ ⦃sha : Sha256⦄
    ⦃order : IterOrder K T key.eq_dec⦄ ⦃entries : Codec (List (K × T))⦄ ⦃events : Codec E⦄
    ⦃requests : Codec TcpStateServerRequestWrapper⦄ ⦃responses : Codec TcpStateServerResponse⦄
    (stream : TlsStream W) where
  -- The thread with a phase, and the steps that it takes.
  abbrev from_phase : ℕ → Phase K T → W → Mutex (TcpStateServer K T E) → Turn K T E W
  from_phase n phase w server =
      alone n (record { stream = stream; world = w; phase = phase }) server

  from_phase-returned :
      (n : ℕ) (x : Handled K T E × W)
      → preceded x.0.2 (from_phase n (returned x.0.0) x.1 x.0.1) ≡ finished stream x
  unfolding advance step
  from_phase-returned zero x =
      ap (λ l. (record { stream = stream; world = x.1; phase = returned x.0.0 }, x.0.1, l))
        (append-nil x.0.2)
  from_phase-returned (suc n) x = from_phase-returned n x

  from_phase-answering :
      (n : ℕ) (handled : Handled K T E) (w : W)
      → preceded handled.2 (from_phase (suc n) (answering handled.0) w handled.1)
        ≡ finished stream (answer_request stream handled w)
  unfolding advance step write_answer answer_request
  from_phase-answering n (ok resp, server, tasks) w =
      from_phase-returned n (answer_request stream (ok resp, server, tasks) w)
  from_phase-answering n (err e, server, tasks) w =
      from_phase-returned n ((err e, server, tasks), w)
  from_phase-answering n (panic, server, tasks) w =
      from_phase-returned n ((panic, server, tasks), w)

  from_phase-begun :
      (n : ℕ)
      (x : (Outcome TcpStateServerError TcpStateServerResponse ⊎ PendingInit K T)
        × Mutex (TcpStateServer K T E)
        × List (Task K T E))
      (w : W)
      → preceded x.2 (from_phase (suc (suc n)) (begun x.0) w x.1)
        ≡ finished stream (answer_request stream (complete x) w)
  unfolding advance step complete
  from_phase-begun n (inl answer, server, tasks) w =
      from_phase-answering (suc n) (answer, server, tasks) w
  from_phase-begun n (inr pending, server, tasks) w =
      from_phase-answering n (complete (inr pending, server, tasks)) w

  from_phase-compared :
      (n : ℕ) (req : TcpStateServerRequestWrapper) (server : Mutex (TcpStateServer K T E)) (w : W)
      → from_phase (suc (suc (suc n))) (compare_password server.inner.password (ok req)) w server
        ≡ finished stream (check_password stream req server w)
  unfolding advance step compare_password check_password process_request
  from_phase-compared n req server w =
      let answer = answer_request stream (process_request req.event server) w in
      let refused = write_response stream incorrect_password w in
      elim (hash_discrete server.inner.password req.password)
        as (λ d.
          from_phase (suc (suc (suc n))) (ite d (asking req.event) refusing) w server
          ≡ finished stream (ite d answer ((refused.0, server, []), refused.1))) [
            | yes e ↦ from_phase-begun n (start_request req.event server) w
            | no d ↦ from_phase-returned (suc (suc n)) ((refused.0, server, []), refused.1)
          ]

  from_phase-read :
      (n : ℕ) (x : Outcome TcpStateServerError TcpStateServerRequestWrapper × W)
      (server : Mutex (TcpStateServer K T E))
      → from_phase (suc (suc (suc n))) (compare_password server.inner.password x.0) x.1 server
        ≡ finished stream (after_read stream x server)
  unfolding after_read compare_password
  from_phase-read n (ok req, w) server = from_phase-compared n req server w
  from_phase-read n (err e, w) server =
      from_phase-returned (suc (suc (suc n))) ((err e, server, []), w)
  from_phase-read n (panic, w) server =
      from_phase-returned (suc (suc (suc n))) ((panic, server, []), w)

  from_phase-spawned :
      (n : ℕ) (server : Mutex (TcpStateServer K T E)) (w : W)
      → alone (suc (suc (suc (suc (suc n))))) (connection stream w) server
        ≡ finished stream (handle_stream stream server w)
  unfolding advance step handle_stream
  from_phase-spawned n server w =
      let failed : Outcome TcpStateServerError TcpStateServerResponse =
        err (to_mutex_poison_err poison_error) in
      let locked = reading server.inner.password in
      elim server.poisoned
        as (λ b.
          from_phase (suc (suc (suc (suc n)))) (if b then returned failed else locked) w server
          ≡ finished stream (
              if b
              then ((failed, server, []), w)
              else after_read stream (read_stream stream w) server)) [
                | true ↦ from_phase-returned (suc (suc (suc (suc n)))) ((failed, server, []), w)
                | false ↦ from_phase-read n (read_stream stream w) server
              ]

  -- The thread of a connection that takes its steps without another in between is done after five
  -- of them, and more change nothing: it has returned, and the server, the stream and the threads
  -- that run hooks are what `handle_stream` as one call leaves.
  alone-handle_stream :
      (n : ℕ) (server : Mutex (TcpStateServer K T E)) (w : W)
      → 5 ≤ n
      → alone n (connection stream w) server ≡ finished stream (handle_stream stream server w)
  alone-handle_stream n server w enough =
      let five : suc (suc (suc (suc (suc (n - 5))))) ≡ n = omega arith in
      subst
        (λ m.
          alone m (connection stream w) server ≡ finished stream (handle_stream stream server w))
        five (from_phase-spawned (n - 5) server w)
