-- ===== src/Tcp/Loopback/Exchange.antt =====
-- One request over a link.
use syncstate.Prelude.{
  ℕ, ◌≤◌, ◌<◌, ◌%◌, ◌^◌, ◌≡◌, ap, sym, ◌∙◌, false, true, List, [], ◌++◌, append-nil, String,
  Outcome, ok, leb, length, arith, from_be_bytes, from_be_bytes-to_be_bytes, if_pos,
}
use syncstate.HashMap.{IterOrder}
use syncstate.Traits.{StateMapKey, StateMapValue}
use syncstate.Bincode.{Codec}
use syncstate.StateMap.Freeze.{Sha256}
use syncstate.Tcp.Hooks.{Mutex}
use syncstate.Tcp.Messages.{
  TcpStateServerRequest, TcpStateServerRequestWrapper, TcpStateServerResponse,
}
use syncstate.Tcp.Server.{TcpStateServer, Task, hash_discrete}
use syncstate.Tcp.Server.Requests.{process_request}
use syncstate.Tcp.Server.Stream.{
  handle_stream, handle_stream_of_read, check_password, answer_request,
}
use syncstate.Tcp.Remote.{TcpStateRemote, send_request, question}
use syncstate.Tcp.Wire.{wire, read_wire, write_wire}
use syncstate.Tcp.Wire.Frames.{
  frame, sent, sent-frame, write_twice, write_response-sent, read_stream-frame, read_wire-append,
  read_wire_length,
}
use syncstate.Tcp.Loopback.{Link, quiet, link, serve_thread, read_client, await_client}

-- Bytes that a wire takes at once, and a length that four bytes hold.
abbrev pub Fits : ℕ → List ℕ → Type 0
Fits limit bytes = (length bytes ≤ limit) × (length bytes < 2 ^ 32)

module _ {K T E : Type 0} ⦃key : StateMapKey K⦄ ⦃value : StateMapValue T⦄ ⦃sha : Sha256⦄
    ⦃order : IterOrder K T key.eq_dec⦄ ⦃entries : Codec (List (K × T))⦄ ⦃events : Codec E⦄
    ⦃requests : Codec TcpStateServerRequestWrapper⦄ ⦃responses : Codec TcpStateServerResponse⦄
    (limit : ℕ) where
  -- The server's thread, for a request that arrived whole.
  handle_stream-frame :
      (server : Mutex (TcpStateServer K T E)) (req : TcpStateServerRequestWrapper)
      (resp : TcpStateServerResponse) (bytes answer : List ℕ)
      → 4 ≤ limit
      → server.poisoned ≡ false
      → server.inner.password ≡ req.password
      → requests.decode bytes ≡ ok req
      → Fits limit bytes
      → (process_request req.event server).0 ≡ ok resp
      → responses.encode resp ≡ ok answer
      → Fits limit answer
      → handle_stream (wire limit) server (frame bytes, []) ≡ (
        (ok resp, (process_request req.event server).1, (process_request req.event server).2),
        ([], frame answer),
      )
  unfolding check_password answer_request
  handle_stream-frame server req resp bytes answer four clear same decoded fits done encoded fits' =
      let handled = process_request req.event server in
      let written =
        write_response-sent limit resp answer [] [] encoded four
        ∙ ap (λ l. (ok resp, ([], l))) (sent-frame limit answer fits'.0) in
      ap (λ l. handle_stream (wire limit) server (l, [])) (sym (append-nil (frame bytes)))
      ∙ handle_stream_of_read (wire limit) server _ ([], []) req clear
          (read_stream-frame limit req bytes [] [] decoded fits.1)
      ∙ if_pos (hash_discrete server.inner.password req.password) same _ _
      ∙ ap (λ o. answer_request (wire limit) (o, handled.1, handled.2) ([], [])) done
      ∙ ap (λ x. ((x.0, handled.1, handled.2), x.1)) written

  -- The server's thread, seen from the link.
  serve_thread-frame :
      (server : Mutex (TcpStateServer K T E)) (tasks : List (Task K T E))
      (req : TcpStateServerRequestWrapper) (resp : TcpStateServerResponse) (bytes answer : List ℕ)
      → handle_stream (wire limit) server (frame bytes, []) ≡ (
        (ok resp, (process_request req.event server).1, (process_request req.event server).2),
        ([], frame answer),
      )
      → serve_thread limit
          (record { server = server; tasks = tasks; to_server = frame bytes; to_client = [] })
        ≡ record {
          server = (process_request req.event server).1;
          tasks = tasks ++ (process_request req.event server).2;
          to_server = [];
          to_client = frame answer;
        }
  unfolding serve_thread
  serve_thread-frame server tasks req resp bytes answer h =
      ap
        (λ x. record {
          server = x.0.1;
          tasks = tasks ++ x.0.2;
          to_server = x.1.0;
          to_client = x.1.1;
        })
        h

  -- What a client that has sent its request does.
  abbrev pub receive : Link K T E → Outcome String TcpStateServerResponse × Link K T E
  receive l = question (await_client limit 4 l) (λ len_buf l1.
      question (await_client limit (from_be_bytes len_buf) l1)
        (λ buffer l2. (responses.decode buffer, l2)))

  receive_answer :
      (server : Mutex (TcpStateServer K T E)) (tasks : List (Task K T E)) (answer : List ℕ)
      → length answer < 2 ^ 32
      → question
          (read_client 4
            (record { server = server; tasks = tasks; to_server = []; to_client = frame answer }))
          (λ len_buf l1.
            question
              (await_client limit (from_be_bytes len_buf) l1)
              (λ buffer l2. (responses.decode buffer, l2)))
        ≡ (responses.decode answer, quiet server tasks)
  unfolding read_client await_client frame
  receive_answer server tasks answer fits =
      let whole : length answer % 2 ^ 32 ≡ length answer = omega arith in
      let there : leb (length answer) (length answer) ≡ true = ground arith in
      let all : read_wire (length answer) (answer, []) ≡ (ok answer, ([], [])) =
        ap (λ l. read_wire (length answer) (l, [])) (sym (append-nil answer))
        ∙ read_wire-append answer [] [] in
      rw (read_wire_length)
        (rw (whole, from_be_bytes-to_be_bytes (length answer) fits, there) (rw all))

  pub send_request_written :
      (r : TcpStateRemote) (request : TcpStateServerRequest) (l : Link K T E) (bytes : List ℕ)
      → 4 ≤ limit
      → requests.encode (record { password = r.password; event = request }) ≡ ok bytes
      → send_request (link limit) r request l
        ≡ receive (record {
          server = l.server;
          tasks = l.tasks;
          to_server = sent limit bytes;
          to_client = [];
        })
  unfolding send_request link write_wire
  send_request_written r request l bytes four encoded = rw encoded (
      ap
        (λ b.
          receive (record { server = l.server; tasks = l.tasks; to_server = b; to_client = [] }))
        (ap (λ x. x.1) (write_twice limit bytes [] [] four)))

  -- A request that a client sends over a link to a server that is not poisoned and has the client's
  -- password, where request and answer can be encoded, their lengths fit into four bytes, and one
  -- `write`, which takes at least four bytes, takes each of them whole: the client gets exactly what
  -- `process_request` answers, the server and its threads are what `process_request` leaves, and
  -- nothing is left on the way.
  pub send_request-process_request :
      (r : TcpStateRemote) (request : TcpStateServerRequest) (l : Link K T E)
      (bytes answer : List ℕ) (resp : TcpStateServerResponse)
      → 4 ≤ limit
      → l.server.poisoned ≡ false
      → l.server.inner.password ≡ r.password
      → requests.encode (record { password = r.password; event = request }) ≡ ok bytes
      → Fits limit bytes
      → (process_request request l.server).0 ≡ ok resp
      → responses.encode resp ≡ ok answer
      → Fits limit answer
      → send_request (link limit) r request l ≡ (
        ok resp,
        quiet
            (process_request request l.server).1
            (l.tasks ++ (process_request request l.server).2),
      )
  unfolding await_client
  send_request-process_request r request l bytes answer resp four clear same encoded fits done
        encoded' fits' =
      let wrapper : TcpStateServerRequestWrapper = record {
        password = r.password;
        event = request;
      } in
      let handled =
        handle_stream-frame l.server wrapper resp bytes answer four clear same
          (requests.decode-encode wrapper bytes encoded) fits done encoded' fits' in
      let after = process_request request l.server in
      send_request_written r request l bytes four encoded
      ∙ ap
          (λ b.
            receive (record { server = l.server; tasks = l.tasks; to_server = b; to_client = [] }))
          (sent-frame limit bytes fits.0)
      ∙ ap
          (λ s. question (read_client 4 s) (λ len_buf l1.
            question (await_client limit (from_be_bytes len_buf) l1)
              (λ buffer l2. (responses.decode buffer, l2))))
          (serve_thread-frame l.server l.tasks wrapper resp bytes answer handled)
      ∙ receive_answer after.1 (l.tasks ++ after.2) answer fits'.1
      ∙ ap (λ o. (o, quiet after.1 (l.tasks ++ after.2)))
          (responses.decode-encode resp answer encoded')
