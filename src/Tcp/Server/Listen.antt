-- ===== src/Tcp/Server/Listen.antt =====
-- `start_server` of src/tcp/server.rs: the loop that accepts connections, and the threads that serve
-- them. A connection is the stream that its thread is given.
use syncstate.Prelude.{List, [], ◌∷◌, ◌++◌, Outcome, ok, err, panic, map_err, ◌>>=◌, String}
use syncstate.HashMap.{IterOrder}
use syncstate.Traits.{StateMapKey, StateMapValue}
use syncstate.Bincode.{Codec}
use syncstate.StateMap.Freeze.{Sha256}
use syncstate.Tcp.Hooks.{Mutex, new_mutex}
use syncstate.Tcp.Messages.{TcpStateServerRequestWrapper, TcpStateServerResponse}
use syncstate.Tcp.Server.{TcpStateServer, TcpStateServerError, Task, io_error}
use syncstate.Tcp.Server.Stream.{TlsStream, handle_stream}

-- The loop over what `accept` returns, so far: an error is logged, and the loop goes on.
unfoldable pub accepted : {S : Type 0} → List (Outcome String S) → List S
accepted [] = []
accepted (ok stream ∷ rest) = stream ∷ accepted rest
accepted (err e ∷ rest) = accepted rest
accepted (panic ∷ rest) = []

-- The shared server and the connections for which a thread was spawned, unless the listener's socket
-- cannot be cloned.
unfoldable pub start_server :
    {K T E S : Type 0}
    → Outcome String (Unit {0})
    → List (Outcome String S)
    → TcpStateServer K T E
    → Outcome TcpStateServerError (Mutex (TcpStateServer K T E) × List S)
unfolding accepted new_mutex
start_server try_clone accepts serv =
    map_err io_error try_clone >>= λ sock. ok (new_mutex serv, accepted accepts)

module _ {K T E W : Type 0} ⦃key : StateMapKey K⦄ ⦃value : StateMapValue T⦄ ⦃sha : Sha256⦄
    ⦃order : IterOrder K T key.eq_dec⦄ ⦃entries : Codec (List (K × T))⦄ ⦃events : Codec E⦄ where
  -- The threads one after the other, each to its end; what they return is dropped.
  unfoldable pub handle_streams :
      ⦃requests : Codec TcpStateServerRequestWrapper⦄ ⦃responses : Codec TcpStateServerResponse⦄
      → List (TlsStream W)
      → Mutex (TcpStateServer K T E)
      → W
      → Mutex (TcpStateServer K T E) × List (Task K T E)
  unfolding handle_stream
  handle_streams [] server w = (server, [])
  handle_streams (stream ∷ streams) server w =
      let (handled, w') = handle_stream stream server w in
      let (server', tasks) = handle_streams streams handled.1 w' in (server', handled.2 ++ tasks)
