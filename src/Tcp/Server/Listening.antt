-- ===== src/Tcp/Server/Listening.antt =====
-- A server that is set up and listens: `from_tcp_listner`, `set_init_hooks`, `start_server` and the
-- threads that it spawns.
use syncstate.Prelude.{◌≡◌, List, [], Outcome, ok, ap, String, ok_inj, ℕ, subst}
use syncstate.HashMap.{IterOrder}
use syncstate.Traits.{StateMapKey, StateMapValue}
use syncstate.Bincode.{Codec}
use syncstate.StateMap.Freeze.{Sha256}
use syncstate.Tcp.Hooks.{Mutex, Hook, InitHook, new_mutex}
use syncstate.Tcp.Messages.{TcpStateServerRequestWrapper, TcpStateServerResponse}
use syncstate.Tcp.Server.{TcpStateServer, from_tcp_listner, set_init_hooks}
use syncstate.Tcp.Server.Coherence.{IsCoherent, start-IsCoherent, Reachable-IsCoherent}
use syncstate.Tcp.Server.Listen.{start_server, handle_streams}
use syncstate.Tcp.Server.ListenSteps.{handle_streams-Reachable}
use syncstate.Tcp.Server.Steps.{System, start}
use syncstate.Tcp.Server.Stream.{TlsStream}

-- The server once it is set up.
abbrev pub set_up :
    {K T E : Type 0} → List (Hook K T E) → List (InitHook K T) → List ℕ → TcpStateServer K T E
set_up hooks init_hooks password = set_init_hooks init_hooks (from_tcp_listner hooks password)

module _ {K T E W : Type 0} ⦃key : StateMapKey K⦄ ⦃value : StateMapValue T⦄ ⦃sha : Sha256⦄
    ⦃order : IterOrder K T key.eq_dec⦄ ⦃entries : Codec (List (K × T))⦄ ⦃events : Codec E⦄
    ⦃requests : Codec TcpStateServerRequestWrapper⦄ ⦃responses : Codec TcpStateServerResponse⦄ where
  -- A server that is set up and whose socket can be cloned listens; whatever connects, and whatever
  -- is sent, the hashes of its maps and of the `Init`s fit together, and the threads that it leaves
  -- hold maps that it has.
  start_server-IsCoherent :
      (hooks : List (Hook K T E)) (init_hooks : List (InitHook K T)) (password : List ℕ)
      (accepts : List (Outcome String (TlsStream W))) (w : W)
      (server : Mutex (TcpStateServer K T E)) (streams : List (TlsStream W))
      → start_server (ok tt) accepts (set_up hooks init_hooks password) ≡ ok (server, streams)
      → IsCoherent (record {
        server = (handle_streams streams server w).0;
        tasks = (handle_streams streams server w).1;
        inits = [];
      })
  unfolding start_server
  start_server-IsCoherent hooks init_hooks password accepts w server streams started =
      let σ : System K T E = record {
        server = new_mutex (set_up hooks init_hooks password);
        tasks = [];
        inits = [];
      } in
      subst
        (λ s. IsCoherent (record {
          server = (handle_streams streams s w).0;
          tasks = (handle_streams streams s w).1;
          inits = [];
        }))
        (ap (λ x. x.0) (ok_inj started))
        (Reachable-IsCoherent σ _ (start-IsCoherent hooks init_hooks password)
          (handle_streams-Reachable streams σ σ w start)).0
