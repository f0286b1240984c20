-- ===== src/Tcp/Server/Connections.antt =====
-- The threads of `handle_stream` of src/tcp/server.rs, step by step: one for each connection that
-- `start_server` accepted. Between two steps other threads may run. A read of the stream returns
-- bytes or an error; that `read_exact` may wait for ever for a silent peer is not modelled.
pub mod Alone
pub mod Interleaved
pub mod Intruders
pub mod Barred
pub mod Started
pub mod Answers
use syncstate.Prelude.{
  ℕ, List, [], ◌∷◌, ◌++◌, Outcome, ok, err, panic, if◌then◌else◌, ite, inl, inr, ◌⊎◌,
}
use syncstate.HashMap.{IterOrder}
use syncstate.Traits.{StateMapKey, StateMapValue}
use syncstate.Bincode.{Codec}
use syncstate.StateMap.Freeze.{Sha256}
use syncstate.Tcp.Hooks.{Mutex, poison_error}
use syncstate.Tcp.Messages.{
  TcpStateServerRequest, TcpStateServerRequestWrapper, TcpStateServerResponse, incorrect_password,
}
use syncstate.Tcp.Server.{
  TcpStateServer, TcpStateServerError, Task, hash_discrete, to_mutex_poison_err,
}
use syncstate.Tcp.Server.Init.{PendingInit, finish_init}
use syncstate.Tcp.Server.Requests.{start_request}
use syncstate.Tcp.Server.Steps.{run_hook}
use syncstate.Tcp.Server.Stream.{TlsStream, read_stream, write_response}

-- Where a thread stands: what it does next, with the values that it has.
pub data Phase (K T : Type 0) : Type 0 where
  spawned : Phase K T
  reading : List ℕ → Phase K T
  refusing : Phase K T
  asking : TcpStateServerRequest → Phase K T
  initialising : PendingInit K T → Phase K T
  answering : Outcome TcpStateServerError TcpStateServerResponse → Phase K T
  returned : Outcome TcpStateServerError TcpStateServerResponse → Phase K T

-- A thread, with its stream and the world at the other end of it.
pub record Connection (K T W : Type 0) : Type 0 where
  pub stream : TlsStream W
  pub world : W
  pub phase : Phase K T

-- A thread that has just been spawned.
abbrev pub connection : {K T W : Type 0} → TlsStream W → W → Connection K T W
connection stream w = record { stream = stream; world = w; phase = spawned }

-- What a step leaves: the thread, the server, and the threads that it spawned.
abbrev pub Turn : Type 0 → Type 0 → Type 0 → Type 0 → Type 0
Turn K T E W = Connection K T W × Mutex (TcpStateServer K T E) × List (Task K T E)

-- After `process_request` gave up the server's lock: it is done, or in the middle of an `Init`.
abbrev pub begun :
    {K T : Type 0}
    → Outcome TcpStateServerError TcpStateServerResponse ⊎ PendingInit K T
    → Phase K T
begun (inl answer) = answering answer
begun (inr pending) = initialising pending

-- The request is read, and its password compared with the copy of the server's.
unfoldable pub compare_password :
    {K T : Type 0} → List ℕ → Outcome TcpStateServerError TcpStateServerRequestWrapper → Phase K T
unfolding hash_discrete
compare_password password (ok req) =
    ite (hash_discrete password req.password) (asking req.event) refusing
compare_password password (err e) = returned (err e)
compare_password password panic = returned panic

module _ {W : Type 0} ⦃responses : Codec TcpStateServerResponse⦄ where
  unfoldable pub write_answer :
      TlsStream W
      → Outcome TcpStateServerError TcpStateServerResponse
      → W
      → Outcome TcpStateServerError TcpStateServerResponse × W
  unfolding write_response
  write_answer stream (ok resp) w = write_response stream resp w
  write_answer stream (err e) w = (err e, w)
  write_answer stream panic w = (panic, w)

module _ {K T E W : Type 0} ⦃key : StateMapKey K⦄ ⦃value : StateMapValue T⦄ ⦃sha : Sha256⦄
    ⦃order : IterOrder K T key.eq_dec⦄ ⦃entries : Codec (List (K × T))⦄ ⦃events : Codec E⦄
    ⦃requests : Codec TcpStateServerRequestWrapper⦄ ⦃responses : Codec TcpStateServerResponse⦄ where
  -- The next step of a thread: up to where it takes or gives up a lock, or has read or written.
  unfoldable pub step : Phase K T → TlsStream W → W → Mutex (TcpStateServer K T E) → Turn K T E W
  unfolding to_mutex_poison_err compare_password read_stream write_answer
  step spawned stream w server = (
    record {
      stream = stream;
      world = w;
      phase =
          if server.poisoned
          then returned (err (to_mutex_poison_err poison_error))
          else reading server.inner.password;
    },
    server,
    [],
  )
  step (reading password) stream w server =
      let (req, w') = read_stream stream w in
      (record { stream = stream; world = w'; phase = compare_password password req }, server, [])
  step refusing stream w server =
      let (written, w') = write_response stream incorrect_password w in
      (record { stream = stream; world = w'; phase = returned written }, server, [])
  step (asking request) stream w server =
      let (result, server', tasks) = start_request request server in
      (record { stream = stream; world = w; phase = begun result }, server', tasks)
  step (initialising pending) stream w server =
      let (answer, server') = finish_init pending server in
      (record { stream = stream; world = w; phase = answering answer }, server', [])
  step (answering answer) stream w server =
      let (written, w') = write_answer stream answer w in
      (record { stream = stream; world = w'; phase = returned written }, server, [])
  step (returned result) stream w server =
      (record { stream = stream; world = w; phase = returned result }, server, [])

  unfoldable pub advance : Connection K T W → Mutex (TcpStateServer K T E) → Turn K T E W
  unfolding step
  advance c server = step c.phase c.stream c.world server

-- A listening server: the threads of its connections, in no particular order, and those that run
-- hooks.
pub record Listening (K T E W : Type 0) : Type 0 where
  pub server : Mutex (TcpStateServer K T E)
  pub tasks : List (Task K T E)
  pub connections : List (Connection K T W)

module _ {K T E W : Type 0} ⦃key : StateMapKey K⦄ ⦃value : StateMapValue T⦄ ⦃sha : Sha256⦄
    ⦃order : IterOrder K T key.eq_dec⦄ ⦃entries : Codec (List (K × T))⦄ ⦃events : Codec E⦄
    ⦃requests : Codec TcpStateServerRequestWrapper⦄ ⦃responses : Codec TcpStateServerResponse⦄
    (Accepts : TlsStream W → Type 0) where
  -- What a listening server may become, if the connections to it are of some kind: a connection is
  -- accepted, a thread of one takes a step and goes to the end of the list, or a hook runs.
  pub data Serves (ν : Listening K T E W) : Listening K T E W → Type 0 where
    idle : Serves ν ν
    accept :
        (ν' : Listening K T E W) (stream : TlsStream W) (w : W)
        → Accepts stream
        → Serves ν ν'
        → Serves ν (record ν' { connections = ν'.connections ++ connection stream w ∷ [] })
    turn :
        (server : Mutex (TcpStateServer K T E)) (tasks : List (Task K T E))
        (before : List (Connection K T W)) (c : Connection K T W) (after : List (Connection K T W))
        → Serves ν (record { server = server; tasks = tasks; connections = before ++ c ∷ after })
        → Serves ν (record {
          server = (advance c server).1;
          tasks = tasks ++ (advance c server).2;
          connections = (before ++ after) ++ (advance c server).0 ∷ [];
        })
    hook_runs :
        (server : Mutex (TcpStateServer K T E)) (connections : List (Connection K T W))
        (before : List (Task K T E)) (task : Task K T E) (after : List (Task K T E))
        → Serves ν
            (record { server = server; tasks = before ++ task ∷ after; connections = connections })
        → Serves ν (record {
          server = record server { inner = (run_hook task server.inner).0 };
          tasks = before ++ ((run_hook task server.inner).1 ++ after);
          connections = connections;
        })
