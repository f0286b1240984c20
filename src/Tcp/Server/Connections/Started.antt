-- ===== src/Tcp/Server/Connections/Started.antt =====
-- A server that is set up, listens and serves its connections at the same time.
use syncstate.Prelude.{◌≡◌, List, [], Outcome, ok, ap, String, ok_inj, ℕ, subst}
use mathlib.Core.List.{Mem}
use syncstate.HashMap.{IterOrder}
use syncstate.Traits.{StateMapKey, StateMapValue}
use syncstate.Bincode.{Codec}
use syncstate.StateMap.Freeze.{Sha256}
use syncstate.Tcp.Hooks.{Mutex, Hook, InitHook}
use syncstate.Tcp.Messages.{TcpStateServerRequestWrapper, TcpStateServerResponse}
use syncstate.Tcp.Server.{TcpStateServer}
use syncstate.Tcp.Server.Coherence.{IsCoherent, start-IsCoherent, Reachable-IsCoherent}
use syncstate.Tcp.Server.Listen.{start_server}
use syncstate.Tcp.Server.Listening.{set_up}
use syncstate.Tcp.Server.Steps.{System, start}
use syncstate.Tcp.Server.Stream.{TlsStream}
use syncstate.Tcp.Server.Connections.{Listening, Serves}
use syncstate.Tcp.Server.Connections.Interleaved.{system, Serves-Reachable}

module _ {K T E W : Type 0} ⦃key : StateMapKey K⦄ ⦃value : StateMapValue T⦄ ⦃sha : Sha256⦄
    ⦃order : IterOrder K T key.eq_dec⦄ ⦃entries : Codec (List (K × T))⦄ ⦃events : Codec E⦄
    ⦃requests : Codec TcpStateServerRequestWrapper⦄ ⦃responses : Codec TcpStateServerResponse⦄ where
  -- A server that is set up and whose socket can be cloned listens. Whatever is sent on the
  -- connections that it accepted, and in whatever order their threads, and those that run hooks, take
  -- their steps, at each moment the hashes of its maps and of the `Init`s under way fit together, and
  -- the threads that run hooks hold maps that it has.
  pub started-IsCoherent :
      (hooks : List (Hook K T E)) (init_hooks : List (InitHook K T)) (password : List ℕ)
      (accepts : List (Outcome String (TlsStream W))) (server : Mutex (TcpStateServer K T E))
      (streams : List (TlsStream W)) (ν : Listening K T E W)
      → start_server (ok tt) accepts (set_up hooks init_hooks password) ≡ ok (server, streams)
      → Serves
          (λ stream. Mem stream streams)
          (record { server = server; tasks = []; connections = [] })
          ν
      → IsCoherent (system ν)
  unfolding start_server
  started-IsCoherent hooks init_hooks password accepts server streams ν started run =
      let σ : System K T E = record { server = server; tasks = []; inits = [] } in
      (Reachable-IsCoherent σ (system ν)
        (subst (λ s. IsCoherent (record { server = s; tasks = []; inits = [] }))
          (ap (λ x. x.0) (ok_inj started)) (start-IsCoherent hooks init_hooks password))
        (Serves-Reachable (λ stream. Mem stream streams) σ
          (record { server = server; tasks = []; connections = [] }) ν start run)).0
