-- ===== src/Tcp/Server/Stream.antt =====
-- `handle_stream` of src/tcp/server.rs: the thread that serves one connection. The stream over TLS
-- is not part of the program; it is a record of what it is asked to do.
use syncstate.Prelude.{
  ℕ, ◌^◌, ◌%◌, ◌≡◌, ◌≢◌, refl, false, subst, List, [], Outcome, ok, err, panic, if◌then◌else◌, ite,
  String, length, to_be_bytes, from_be_bytes, if_pos, if_neg, ap, ◌∙◌, sym,
}
use syncstate.HashMap.{IterOrder}
use syncstate.Traits.{StateMapKey, StateMapValue}
use syncstate.Bincode.{Codec}
use syncstate.StateMap.Freeze.{Sha256}
use syncstate.Tcp.Hooks.{Mutex, poison_error}
use syncstate.Tcp.Messages.{
  TcpStateServerRequestWrapper, TcpStateServerResponse, incorrect_password,
}
use syncstate.Tcp.Server.{
  TcpStateServer, TcpStateServerError, hash_discrete, to_mutex_poison_err, io_error, rustls_error,
  decode_error, encode_error,
}
use syncstate.Tcp.Server.Requests.{Handled, process_request}

-- `StreamOwned` over a world `W`: the set-up of the connection, `read_exact`, and `write`, which
-- returns how many bytes it took.
pub record TlsStream (W : Type 0) : Type 0 where
  pub connect : W → Outcome String (Unit {0}) × W
  pub read_exact : ℕ → W → Outcome String (List ℕ) × W
  pub write : List ℕ → W → Outcome String ℕ × W

-- `?` on a call that acts on the world
abbrev pub and_then :
    {A B F W : Type 0}
    → (F → TcpStateServerError)
    → Outcome F A × W
    → (A → W → Outcome TcpStateServerError B × W)
    → Outcome TcpStateServerError B × W
and_then f (ok a, w) next = next a w
and_then f (err e, w) next = (err (f e), w)
and_then f (panic, w) next = (panic, w)

module _ {W : Type 0} (stream : TlsStream W) where
  -- The length as four bytes, the payload, and what it decodes to.
  unfoldable pub read_request :
      ⦃requests : Codec TcpStateServerRequestWrapper⦄
      → W
      → Outcome TcpStateServerError TcpStateServerRequestWrapper × W
  read_request ⦃requests⦄ w = and_then io_error (stream.read_exact 4 w) (λ len_buffer w1.
      and_then io_error (stream.read_exact (from_be_bytes len_buffer) w1)
        (λ buffer w2. and_then decode_error (requests.decode buffer, w2) (λ req w3. (ok req, w3))))

  -- The connection is set up, and the request is read.
  unfoldable pub read_stream :
      ⦃requests : Codec TcpStateServerRequestWrapper⦄
      → W
      → Outcome TcpStateServerError TcpStateServerRequestWrapper × W
  unfolding read_request
  read_stream w = and_then rustls_error (stream.connect w) (λ u w1. read_request w1)

  -- The counts that `write` returns are dropped.
  unfoldable pub write_response :
      ⦃responses : Codec TcpStateServerResponse⦄
      → TcpStateServerResponse
      → W
      → Outcome TcpStateServerError TcpStateServerResponse × W
  write_response ⦃responses⦄ resp w =
      and_then encode_error (responses.encode resp, w)
        (λ resp_buffer w1.
          and_then io_error (stream.write (to_be_bytes 4 (length resp_buffer % 2 ^ 32)) w1)
            (λ n w2. and_then io_error (stream.write resp_buffer w2) (λ m w3. (ok resp, w3))))

module _ {K T E W : Type 0} ⦃key : StateMapKey K⦄ ⦃value : StateMapValue T⦄ ⦃sha : Sha256⦄
    ⦃order : IterOrder K T key.eq_dec⦄ ⦃entries : Codec (List (K × T))⦄ ⦃events : Codec E⦄
    ⦃requests : Codec TcpStateServerRequestWrapper⦄ ⦃responses : Codec TcpStateServerResponse⦄
    (stream : TlsStream W) where
  -- The answer to a request that was processed.
  unfoldable pub answer_request : Handled K T E → W → Handled K T E × W
  unfolding write_response
  answer_request (ok resp, server, tasks) w =
      let (written, w') = write_response stream resp w in ((written, server, tasks), w')
  answer_request (err e, server, tasks) w = ((err e, server, tasks), w)
  answer_request (panic, server, tasks) w = ((panic, server, tasks), w)

  -- The password is compared before the request is looked at.
  unfoldable pub check_password :
      TcpStateServerRequestWrapper → Mutex (TcpStateServer K T E) → W → Handled K T E × W
  unfolding hash_discrete write_response answer_request process_request
  check_password req server w =
      ite (hash_discrete server.inner.password req.password)
        (answer_request (process_request req.event server) w)
        (let (written, w') = write_response stream incorrect_password w in
          ((written, server, []), w'))

  unfoldable pub after_read :
      Outcome TcpStateServerError TcpStateServerRequestWrapper × W
      → Mutex (TcpStateServer K T E)
      → Handled K T E × W
  unfolding check_password
  after_read (ok req, w) server = check_password req server w
  after_read (err e, w) server = ((err e, server, []), w)
  after_read (panic, w) server = ((panic, server, []), w)

  -- The password is read under the first lock; it never changes.
  unfoldable pub handle_stream : Mutex (TcpStateServer K T E) → W → Handled K T E × W
  unfolding read_stream after_read to_mutex_poison_err
  handle_stream server w =
      if server.poisoned
      then ((err (to_mutex_poison_err poison_error), server, []), w)
      else after_read (read_stream stream w) server

  -- The server and the threads are those that the processing of the request left, and so is the
  -- result if it failed.
  abbrev pub Follows : Handled K T E → Handled K T E × W → Type 0
  Follows handled x =
      (x.0.1 ≡ handled.1)
      × (x.0.2 ≡ handled.2)
      × (handled.0 ≡ panic → x.0.0 ≡ panic)
      × ((e : TcpStateServerError) → handled.0 ≡ err e → x.0.0 ≡ err e)

  pub answer_request-Follows :
      (handled : Handled K T E) (w : W) → Follows handled (answer_request handled w)
  unfolding answer_request
  answer_request-Follows (ok resp, server, tasks) w = (refl, refl, λ h. absurd cc, λ e h. absurd cc)
  answer_request-Follows (err e, server, tasks) w = (refl, refl, λ h. cc, λ e' h. h)
  answer_request-Follows (panic, server, tasks) w = (refl, refl, λ h. refl, λ e h. cc)

  pub handle_stream_clear :
      (server : Mutex (TcpStateServer K T E)) (w : W)
      → server.poisoned ≡ false
      → handle_stream server w ≡ after_read (read_stream stream w) server
  unfolding handle_stream
  handle_stream_clear server w clear =
      ap
        (λ b.
          if b
          then ((err (to_mutex_poison_err poison_error), server, []), w)
          else after_read (read_stream stream w) server)
        clear

  -- Once a request is read, its password is compared.
  pub handle_stream_of_read :
      (server : Mutex (TcpStateServer K T E)) (w w' : W) (req : TcpStateServerRequestWrapper)
      → server.poisoned ≡ false
      → read_stream stream w ≡ (ok req, w')
      → handle_stream server w ≡ check_password req server w'
  unfolding after_read
  handle_stream_of_read server w w' req clear given =
      handle_stream_clear server w clear ∙ ap (λ x. after_read x server) given

  -- A connection on which a request could be read from a server that is not poisoned. If the
  -- password is another one than the server's, the server is left as it was, no thread is spawned
  -- and `IncorrectPassword` is written, whatever the request is. If it is the server's, the server
  -- and its threads become what `process_request` makes of them, and an error or a panic of it is
  -- what the thread returns.
  pub handle_stream_guards :
      (server : Mutex (TcpStateServer K T E)) (w w' : W) (req : TcpStateServerRequestWrapper)
      → server.poisoned ≡ false
      → read_stream stream w ≡ (ok req, w')
      → (server.inner.password ≢ req.password
          → handle_stream server w ≡ (
            ((write_response stream incorrect_password w').0, server, []),
            (write_response stream incorrect_password w').1,
          ))
        × (server.inner.password ≡ req.password
            → ((handle_stream server w).0.1 ≡ (process_request req.event server).1)
              × ((handle_stream server w).0.2 ≡ (process_request req.event server).2)
              × ((process_request req.event server).0 ≡ panic
                  → (handle_stream server w).0.0 ≡ panic)
              × ((e : TcpStateServerError)
                  → (process_request req.event server).0 ≡ err e
                  → (handle_stream server w).0.0 ≡ err e))
  unfolding check_password
  handle_stream_guards server w w' req clear given =
      let reached = handle_stream_of_read server w w' req clear given in
      (
        λ wrong. reached ∙ if_neg (hash_discrete server.inner.password req.password) wrong _ _,
        λ same.
            subst (Follows (process_request req.event server))
              (sym (reached ∙ if_pos (hash_discrete server.inner.password req.password) same _ _))
              (answer_request-Follows (process_request req.event server) w'),
      )
