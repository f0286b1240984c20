-- ===== src/Tcp/Loopback.antt =====
-- A client and a server that are connected by wires: what the client writes is read by a thread of
-- the server, which runs when the client waits for an answer.
pub mod Exchange
pub mod Prepared
pub mod Init
pub mod Updates
pub mod Events
pub mod Join
use syncstate.Prelude.{
  ℕ, List, [], ◌++◌, String, Outcome, ok, err, if◌then◌else◌, leb, min, length, take, drop,
}
use syncstate.HashMap.{IterOrder}
use syncstate.Traits.{StateMapKey, StateMapValue}
use syncstate.Bincode.{Codec}
use syncstate.StateMap.Freeze.{Sha256}
use syncstate.Tcp.Hooks.{Mutex}
use syncstate.Tcp.Messages.{TcpStateServerRequestWrapper, TcpStateServerResponse}
use syncstate.Tcp.Server.{TcpStateServer, Task}
use syncstate.Tcp.Server.Stream.{TlsStream, handle_stream}
use syncstate.Tcp.Wire.{wire, read_wire, write_wire}

-- The server, the threads that it spawned, and the bytes that are on the way.
pub record Link (K T E : Type 0) : Type 0 where
  pub server : Mutex (TcpStateServer K T E)
  pub tasks : List (Task K T E)
  pub to_server : List ℕ
  pub to_client : List ℕ

-- No bytes are on the way.
abbrev pub quiet : {K T E : Type 0} → Mutex (TcpStateServer K T E) → List (Task K T E) → Link K T E
quiet server tasks = record { server = server; tasks = tasks; to_server = []; to_client = [] }

-- The client reads what has arrived.
unfoldable pub read_client :
    {K T E : Type 0} → ℕ → Link K T E → Outcome String (List ℕ) × Link K T E
read_client n l =
    let (read, bytes) = read_wire n (l.to_client, l.to_server) in
    (read, record l { to_client = bytes.0 })

module _ {K T E : Type 0} ⦃key : StateMapKey K⦄ ⦃value : StateMapValue T⦄ ⦃sha : Sha256⦄
    ⦃order : IterOrder K T key.eq_dec⦄ ⦃entries : Codec (List (K × T))⦄ ⦃events : Codec E⦄
    ⦃requests : Codec TcpStateServerRequestWrapper⦄ ⦃responses : Codec TcpStateServerResponse⦄
    (limit : ℕ) where
  -- The thread of the server.
  unfoldable pub serve_thread : Link K T E → Link K T E
  serve_thread l =
      let (handled, bytes) = handle_stream (wire limit) l.server (l.to_server, l.to_client) in
      record {
        server = handled.1;
        tasks = l.tasks ++ handled.2;
        to_server = bytes.0;
        to_client = bytes.1;
      }

  -- The client waits: the server's thread runs if there is nothing to read yet.
  unfoldable pub await_client : ℕ → Link K T E → Outcome String (List ℕ) × Link K T E
  await_client n l =
      if leb n (length l.to_client) then read_client n l else read_client n (serve_thread l)

  unfoldable pub link : TlsStream (Link K T E)
  link = record {
    connect = λ l. (ok tt, record l { to_server = []; to_client = [] });
    read_exact = await_client;
    write = λ bytes l.
        let (written, sent) = write_wire limit bytes (l.to_client, l.to_server) in
        (written, record l { to_server = sent.1 });
  }
