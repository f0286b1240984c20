-- ===== src/Tests/Stream.antt =====
-- Connections to a server: runs, and the theorems at fixtures.
use syncstate.Prelude.{
  ℕ, ◌≡◌, ◌≢◌, refl, ap, ok_inj, String, List, [], ◌∷◌, Outcome, ok, err, panic, to_be_bytes,
  from_be_bytes, if◌then◌else◌, leb,
}
use syncstate.Tcp.Hooks.{Mutex, new_mutex}
use syncstate.Tcp.Messages.{TcpStateServerRequestWrapper, get_update_id, incorrect_password}
use syncstate.Tcp.Server.{TcpStateServer, TcpStateServerError, from_tcp_listner}
use syncstate.Tcp.Server.Intruders.{IsIntruder}
use syncstate.Tcp.Server.Requests.{process_request}
use syncstate.Tcp.Server.Stream.{
  TlsStream, read_stream, write_response, handle_stream, handle_stream_guards,
}
use syncstate.Tcp.Wire.{Wire, wire, read_wire, write_wire}
use syncstate.Tests.Fixtures.{nat_key, nat_value, identity_digest, nat_order, evaluated}
use syncstate.Tests.Codecs.{request_bytes, response_bytes}
use syncstate.Tests.Server.{nat_entries, nat_event}

abbrev pub guarded : Mutex (TcpStateServer ℕ ℕ ℕ)
guarded = new_mutex (from_tcp_listner [] (7 ∷ []))

-- A client that asks for an update id with a password that is not the server's.
abbrev asked_bytes : List ℕ
asked_bytes = 1 ∷ 8 ∷ 0 ∷ 0 ∷ []

abbrev pub sent : Wire
sent = (0 ∷ 0 ∷ 0 ∷ 4 ∷ asked_bytes, [])

abbrev asked : TcpStateServerRequestWrapper
asked = record { password = 8 ∷ []; event = get_update_id [] }

refused : (handle_stream (wire 100) guarded sent).1.1 ≡ 0 ∷ 0 ∷ 0 ∷ 3 ∷ 0 ∷ 0 ∷ 0 ∷ []
unfolding evaluated handle_stream new_mutex from_tcp_listner to_be_bytes from_be_bytes wire
    read_wire write_wire
refused = refl

handle_stream_guards_example :
    ((7 ∷ []) ≢ asked.password
      → handle_stream (wire 100) guarded sent ≡ (
        ((write_response (wire 100) incorrect_password ([], [])).0, guarded, []),
        (write_response (wire 100) incorrect_password ([], [])).1,
      ))
    × ((7 ∷ []) ≡ asked.password
        → ((handle_stream (wire 100) guarded sent).0.1 ≡ (process_request asked.event guarded).1)
          × ((handle_stream (wire 100) guarded sent).0.2 ≡ (process_request asked.event guarded).2)
          × ((process_request asked.event guarded).0 ≡ panic
              → (handle_stream (wire 100) guarded sent).0.0 ≡ panic)
          × ((e : TcpStateServerError)
              → (process_request asked.event guarded).0 ≡ err e
              → (handle_stream (wire 100) guarded sent).0.0 ≡ err e))
unfolding read_stream new_mutex from_tcp_listner from_be_bytes wire read_wire
handle_stream_guards_example = handle_stream_guards (wire 100) guarded sent ([], []) asked refl refl

-- A connection on which the same request can be read again and again.
abbrev pub shouting : TlsStream Wire
shouting = record (wire 100) {
  read_exact = λ n w. (ok (if leb n 4 then 0 ∷ 0 ∷ 0 ∷ 5 ∷ [] else 1 ∷ 8 ∷ 0 ∷ 0 ∷ 3 ∷ []), w);
}

abbrev pub nothing : Wire
nothing = ([], [])

pub shouting-IsIntruder : IsIntruder (7 ∷ []) shouting
unfolding read_stream from_be_bytes wire
shouting-IsIntruder w req h e = cc (e, ap (λ r. r.password) (ok_inj h))

abbrev pub accepts : List (Outcome String (TlsStream Wire))
accepts = err "too many open files" ∷ ok (wire 100) ∷ []
