-- ===== src/Tests/Connections.antt =====
-- Connections that are served at the same time: runs, and the theorems at fixtures.
use syncstate.Prelude.{ℕ, ◌≡◌, refl, [], ◌∷◌}
use mathlib.Core.List.{mem-cons_self}
use syncstate.Tcp.Hooks.{new_mutex}
use syncstate.Tcp.Server.{from_tcp_listner}
use syncstate.Tcp.Server.Coherence.{IsCoherent}
use syncstate.Tcp.Server.Connections.{
  Connection, connection, Listening, Serves, accept, turn, advance, step, reading,
}
use syncstate.Tcp.Server.Connections.Interleaved.{system}
use syncstate.Tcp.Server.Connections.Barred.{Serves_barred}
use syncstate.Tcp.Server.Connections.Started.{started-IsCoherent}
use syncstate.Tcp.Server.Listen.{start_server}
use syncstate.Tcp.Server.Listening.{set_up}
use syncstate.Tcp.Wire.{Wire, wire}
use syncstate.Tests.Codecs.{request_bytes, response_bytes}
use syncstate.Tests.Fixtures.{nat_key, nat_value, identity_digest, nat_order}
use syncstate.Tests.Server.{nat_entries, nat_event, refusing}
use syncstate.Tests.Stream.{guarded, sent, shouting, nothing, shouting-IsIntruder, accepts}

abbrev NatListening : Type 0
NatListening = Listening ℕ ℕ ℕ Wire

-- A connection without the password, and the server before and after it.
abbrev first_seen : Connection ℕ ℕ Wire
first_seen = record { stream = shouting; world = nothing; phase = reading (7 ∷ []) }

abbrev quiet : NatListening
quiet = record { server = guarded; tasks = []; connections = [] }

abbrev half : NatListening
half = record { server = guarded; tasks = []; connections = first_seen ∷ [] }

-- A server that has accepted a connection, the thread of which has taken its first step.
abbrev started : NatListening
started =
    let server = new_mutex (set_up (refusing ∷ []) [] []) in
    let (c, server', tasks) = advance (connection (wire 100) sent) server in
    record { server = server'; tasks = tasks; connections = c ∷ [] }

started-IsCoherent_example : IsCoherent (system started)
unfolding start_server
started-IsCoherent_example =
    let server = new_mutex (set_up (refusing ∷ []) [] []) in
    started-IsCoherent (refusing ∷ []) [] [] accepts server (wire 100 ∷ []) started refl (
      turn server [] [] (connection (wire 100) sent) [] (
        accept (record { server = server; tasks = []; connections = [] }) (wire 100) sent
          mem-cons_self Serves.idle))

-- Beside the connection without the password another one has been accepted.
Serves_barred_example :
    ((advance first_seen guarded).1 ≡ guarded) × ((advance first_seen guarded).2 ≡ [])
unfolding advance step new_mutex from_tcp_listner
Serves_barred_example =
    Serves_barred (λ stream. Unit {0}) guarded [] guarded [] [] first_seen
      (connection (wire 100) sent ∷ [])
      (accept half (wire 100) sent tt (
        turn guarded [] [] (connection shouting nothing) []
          (accept quiet shouting nothing tt Serves.idle)))
      shouting-IsIntruder
