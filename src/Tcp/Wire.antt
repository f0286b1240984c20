-- ===== src/Tcp/Wire.antt =====
-- A connection that carries bytes in order, as the environment of both ends: `write` takes at most
-- `limit` bytes of what it is given, as its documentation allows, and `read_exact` returns an
-- error if there are not enough bytes; the real one would wait for more while the connection is open.
pub mod Frames
use syncstate.Prelude.{
  ℕ, ◌≤◌, ◌≡◌, List, ◌++◌, String, Outcome, ok, err, if◌then◌else◌, leb, min, length, take, drop,
}
use syncstate.Tcp.Server.Stream.{TlsStream}

-- What is still to be read, and what was written.
abbrev pub Wire : Type 0
Wire = List ℕ × List ℕ

unfoldable pub read_wire : ℕ → Wire → Outcome String (List ℕ) × Wire
read_wire n w =
    if leb n (length w.0)
    then (ok (take n w.0), (drop n w.0, w.1))
    else (err "failed to fill whole buffer", w)

unfoldable pub write_wire : ℕ → List ℕ → Wire → Outcome String ℕ × Wire
write_wire limit bytes w = (ok (min limit (length bytes)), (w.0, w.1 ++ take limit bytes))

unfoldable pub wire : ℕ → TlsStream Wire
wire limit = record { connect = λ w. (ok tt, w); read_exact = read_wire; write = write_wire limit }
