-- ===== src/Tcp/Server/Intruders.antt =====
-- Connections without the password.
use syncstate.Prelude.{
  sym, if_intro, ℕ, ◌≡◌, ◌≢◌, refl, List, [], ◌∷◌, Outcome, ok, err, panic, if_neg, subst,
}
use syncstate.HashMap.{IterOrder}
use syncstate.Traits.{StateMapKey, StateMapValue}
use syncstate.Bincode.{Codec}
use syncstate.StateMap.Freeze.{Sha256}
use syncstate.Tcp.Hooks.{Mutex}
use syncstate.Tcp.Messages.{TcpStateServerRequestWrapper, TcpStateServerResponse}
use syncstate.Tcp.Server.{TcpStateServer, TcpStateServerError, hash_discrete}
use syncstate.Tcp.Server.Requests.{Handled}
use syncstate.Tcp.Server.SafeRequests.{Every}
use syncstate.Tcp.Server.Stream.{TlsStream, handle_stream, after_read, check_password, read_stream}
use syncstate.Tcp.Server.Listen.{handle_streams}

-- A connection on which no request with a given password can be read.
abbrev pub IsIntruder :
    {W : Type 0} ⦃requests : Codec TcpStateServerRequestWrapper⦄ → List ℕ → TlsStream W → Type 0
IsIntruder {W} password stream =
    (w : W) (req : TcpStateServerRequestWrapper)
    → (read_stream stream w).0 ≡ ok req
    → password ≢ req.password

module _ {K T E W : Type 0} ⦃key : StateMapKey K⦄ ⦃value : StateMapValue T⦄ ⦃sha : Sha256⦄
    ⦃order : IterOrder K T key.eq_dec⦄ ⦃entries : Codec (List (K × T))⦄ ⦃events : Codec E⦄
    ⦃requests : Codec TcpStateServerRequestWrapper⦄ ⦃responses : Codec TcpStateServerResponse⦄ where
  abbrev LeftAlone : Mutex (TcpStateServer K T E) → Handled K T E × W → Type 0
  LeftAlone server x = (x.0.1 ≡ server) × (x.0.2 ≡ [])

  after_read-LeftAlone :
      (stream : TlsStream W) (server : Mutex (TcpStateServer K T E))
      (x : Outcome TcpStateServerError TcpStateServerRequestWrapper × W)
      → ((req : TcpStateServerRequestWrapper) → x.0 ≡ ok req → server.inner.password ≢ req.password)
      → LeftAlone server (after_read stream x server)
  unfolding after_read check_password
  after_read-LeftAlone stream server (ok req, w) wrong =
      let test = hash_discrete server.inner.password req.password in
      subst (LeftAlone server) (sym (if_neg test (wrong req refl) _ _)) (refl, refl)
  after_read-LeftAlone stream server (err e, w) wrong = (refl, refl)
  after_read-LeftAlone stream server (panic, w) wrong = (refl, refl)

  handle_stream-LeftAlone :
      (stream : TlsStream W) (server : Mutex (TcpStateServer K T E)) (w : W)
      → IsIntruder server.inner.password stream
      → LeftAlone server (handle_stream stream server w)
  unfolding handle_stream
  handle_stream-LeftAlone stream server w intruder =
      if_intro (LeftAlone server) server.poisoned _ _ (refl, refl)
        (after_read-LeftAlone stream server (read_stream stream w) (intruder w))

  -- However many connections are made without the server's password, and whatever is sent on them,
  -- the server is left as it was, and no thread that runs hooks is spawned.
  handle_streams_intruders :
      (streams : List (TlsStream W)) (server : Mutex (TcpStateServer K T E)) (w : W)
      → Every (IsIntruder server.inner.password) streams
      → handle_streams streams server w ≡ (server, [])
  unfolding handle_streams
  handle_streams_intruders [] server w intruders = refl
  handle_streams_intruders (stream ∷ streams) server w intruders =
      let (kept, idle) = handle_stream-LeftAlone stream server w intruders.0 in
      rw (kept, idle) (handle_streams_intruders streams server _ intruders.1)
