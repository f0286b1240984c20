-- ===== src/Tcp/Server/Connections/Barred.antt =====
-- Connections without the password, beside connections of any other kind.
use syncstate.Prelude.{ℕ, ◌≡◌, sym, List, [], ◌∷◌, ◌++◌, if_intro, subst}
use syncstate.HashMap.{IterOrder}
use syncstate.Traits.{StateMapKey, StateMapValue}
use syncstate.Bincode.{Codec}
use syncstate.StateMap.Freeze.{Sha256}
use syncstate.Tcp.Hooks.{Mutex}
use syncstate.Tcp.Messages.{TcpStateServerRequestWrapper, TcpStateServerResponse}
use syncstate.Tcp.Server.{TcpStateServer, Task}
use syncstate.Tcp.Server.Config.{Reachable-SameConfig}
use syncstate.Tcp.Server.Intruders.{IsIntruder}
use syncstate.Tcp.Server.SafeRequests.{Every, Every-append, Every-parts}
use syncstate.Tcp.Server.Steps.{System, start}
use syncstate.Tcp.Server.Stream.{TlsStream, read_stream}
use syncstate.Tcp.Server.Connections.{
  Phase, spawned, reading, refusing, asking, initialising, answering, returned, Connection,
  connection, compare_password, step, advance, Listening, Serves, idle, accept, turn, hook_runs,
}
use syncstate.Tcp.Server.Connections.Interleaved.{system, Serves-Reachable}
use syncstate.Tcp.Server.Connections.Intruders.{
  IsKeptOut, compare_password-IsKeptOut, step-IsTurnedAway,
}

module _ {K T W : Type 0} ⦃requests : Codec TcpStateServerRequestWrapper⦄ where
  -- The thread's request is not looked at if the connection is an intruder's.
  abbrev IsBarred : List ℕ → Connection K T W → Type 0
  IsBarred password c = IsIntruder password c.stream → IsKeptOut password c.phase

module _ {K T E W : Type 0} ⦃key : StateMapKey K⦄ ⦃value : StateMapValue T⦄ ⦃sha : Sha256⦄
    ⦃order : IterOrder K T key.eq_dec⦄ ⦃entries : Codec (List (K × T))⦄ ⦃events : Codec E⦄
    ⦃requests : Codec TcpStateServerRequestWrapper⦄ ⦃responses : Codec TcpStateServerResponse⦄ where
  step-IsBarred :
      (password : List ℕ) (phase : Phase K T) (stream : TlsStream W) (w : W)
      (server : Mutex (TcpStateServer K T E))
      → server.inner.password ≡ password
      → (IsIntruder password stream → IsKeptOut password phase)
      → IsBarred password (step phase stream w server).0
  unfolding step
  step-IsBarred password spawned stream w server same barred out =
      if_intro (IsKeptOut password) server.poisoned _ _ tt same
  step-IsBarred password (reading copy) stream w server same barred out =
      subst (λ p. IsKeptOut {K = K} {T = T} password (compare_password p (read_stream stream w).0))
        (sym (barred out))
        (compare_password-IsKeptOut K T password (read_stream stream w).0 (out w))
  step-IsBarred password refusing stream w server same barred out = tt
  step-IsBarred password (asking request) stream w server same barred out = absurd (barred out)
  step-IsBarred password (initialising pending) stream w server same barred out =
      absurd (barred out)
  step-IsBarred password (answering answer) stream w server same barred out = absurd (barred out)
  step-IsBarred password (returned result) stream w server same barred out = tt

  module _ (Accepts : TlsStream W → Type 0) (server : Mutex (TcpStateServer K T E))
      (tasks : List (Task K T E)) where
    -- The server before anything has connected.
    abbrev pub unconnected : Listening K T E W
    unconnected = record { server = server; tasks = tasks; connections = [] }

    same_password :
        (ν : Listening K T E W)
        → Serves Accepts unconnected ν
        → ν.server.inner.password ≡ server.inner.password
    same_password ν run =
        let σ : System K T E = system unconnected in
        (Reachable-SameConfig σ (system ν) (Serves-Reachable Accepts σ unconnected ν start run)).2

    Serves-IsBarred :
        (ν : Listening K T E W)
        → Serves Accepts unconnected ν
        → Every (IsBarred server.inner.password) ν.connections
    unfolding advance
    Serves-IsBarred _ idle = tt
    Serves-IsBarred _ (accept ν stream w accepted run) =
        Every-append (IsBarred server.inner.password) ν.connections (connection stream w ∷ [])
          (Serves-IsBarred ν run) ((λ out. tt), tt)
    Serves-IsBarred _ (turn server' tasks' before c after run) =
        let P = IsBarred server.inner.password in
        let (first_ones, others) = Every-parts P before (c ∷ after) (Serves-IsBarred _ run) in
        Every-append P (before ++ after) _ (Every-append P before after first_ones others.1) (
          step-IsBarred server.inner.password c.phase c.stream c.world server' (same_password _ run)
              others.0,
          tt,
        )
    Serves-IsBarred _ (hook_runs server' connections before task after run) = Serves-IsBarred _ run

    -- A server to which nothing has connected yet serves connections of any kind, whose threads and
    -- those of the hooks take their steps in any order. At any moment, a step of a thread on whose
    -- connection no request with the server's password can be read leaves the server as it finds
    -- it, and spawns no thread that runs hooks.
    pub Serves_barred :
        (server' : Mutex (TcpStateServer K T E)) (tasks' : List (Task K T E))
        (before : List (Connection K T W)) (c : Connection K T W) (after : List (Connection K T W))
        → Serves Accepts unconnected
            (record { server = server'; tasks = tasks'; connections = before ++ c ∷ after })
        → IsIntruder server.inner.password c.stream
        → ((advance c server').1 ≡ server') × ((advance c server').2 ≡ [])
    unfolding advance
    Serves_barred server' tasks' before c after run out =
        let same = sym (same_password _ run) in
        let barred =
          (Every-parts (IsBarred server.inner.password) before (c ∷ after)
            (Serves-IsBarred _ run)).1.0 in
        let away =
          step-IsTurnedAway c.phase c.stream c.world server'
            (subst (λ p. IsIntruder p c.stream) same out)
            (subst (λ p. IsKeptOut p c.phase) same (barred out)) in
        (away.same, away.idles)
