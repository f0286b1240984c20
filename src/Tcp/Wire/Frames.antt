-- ===== src/Tcp/Wire/Frames.antt =====
-- Messages on a wire, as their length in four bytes and their bytes, whole or cut.
use syncstate.Prelude.{
  ℕ, ◌≤◌, ◌<◌, ◌%◌, ◌^◌, ◌≡◌, ◌∙◌, refl, ap, true, false, List, [], ◌∷◌, ◌++◌, append_assoc, ok,
  err, leb, length, length-append, take, drop, take_of_length-le, arith, to_be_bytes, from_be_bytes,
  from_be_bytes-to_be_bytes, length-take,
}
use syncstate.Bincode.{Codec}
use syncstate.Tcp.Messages.{TcpStateServerRequestWrapper, TcpStateServerResponse}
use syncstate.Tcp.Server.Stream.{read_stream, read_request, write_response}
use syncstate.Tcp.Wire.{wire, read_wire, write_wire}

-- What the two calls of `write` send for a message.
unfoldable pub frame : List ℕ → List ℕ
frame bytes = to_be_bytes 4 (length bytes % 2 ^ 32) ++ bytes

pub take_left : (a b : List ℕ) → take (length a) (a ++ b) ≡ a
take_left [] b = refl
take_left (x ∷ a) b = ap (◌∷◌ x) (take_left a b)

pub drop_left : (a b : List ℕ) → drop (length a) (a ++ b) ≡ b
drop_left [] b = refl
drop_left (x ∷ a) b = drop_left a b

-- The bytes that stand first are read.
pub read_wire-append :
    (a rest out : List ℕ) → read_wire (length a) (a ++ rest, out) ≡ (ok a, (rest, out))
unfolding read_wire
read_wire-append a rest out =
    let enough : leb (length a) (length (a ++ rest)) ≡ true =
      ground (arith, length-append a rest) in
    rw (enough, take_left a rest, drop_left a rest)

-- The four bytes of a length are read.
pub read_wire_length :
    (n : ℕ) (rest out : List ℕ)
    → read_wire 4 (to_be_bytes 4 n ++ rest, out) ≡ (ok (to_be_bytes 4 n), (rest, out))
unfolding to_be_bytes
read_wire_length n rest out = read_wire-append (to_be_bytes 4 n) rest out

-- Fewer bytes than asked for are not read.
pub read_wire_short :
    (n : ℕ) (a out : List ℕ)
    → length a < n
    → read_wire n (a, out) ≡ (err "failed to fill whole buffer", (a, out))
unfolding read_wire
read_wire_short n a out h = let short : leb n (length a) ≡ false = ground arith in rw short

-- The bytes that a message puts on the wire: `write` is called once for its length and once for it.
unfoldable pub sent : ℕ → List ℕ → List ℕ
sent limit bytes = to_be_bytes 4 (length bytes % 2 ^ 32) ++ take limit bytes

pub sent-frame :
    (limit : ℕ) (bytes : List ℕ) → length bytes ≤ limit → sent limit bytes ≡ frame bytes
unfolding sent frame
sent-frame limit bytes h =
    ap (λ l. to_be_bytes 4 (length bytes % 2 ^ 32) ++ l) (take_of_length-le bytes limit h)

-- Both calls of `write` for a message, on a wire that takes at least a length at once.
pub write_twice :
    (limit : ℕ) (bytes inp out : List ℕ)
    → 4 ≤ limit
    → (write_wire limit bytes
        (write_wire limit (to_be_bytes 4 (length bytes % 2 ^ 32)) (inp, out)).1).1
      ≡ (inp, out ++ sent limit bytes)
unfolding write_wire sent to_be_bytes
write_twice limit bytes inp out h =
    let header = to_be_bytes 4 (length bytes % 2 ^ 32) in
    rw (take_of_length-le header limit h, append_assoc)

module _ (limit : ℕ) where
  pub write_response-sent :
      ⦃responses : Codec TcpStateServerResponse⦄ (resp : TcpStateServerResponse)
      (bytes inp out : List ℕ)
      → responses.encode resp ≡ ok bytes
      → 4 ≤ limit
      → write_response (wire limit) resp (inp, out) ≡ (ok resp, (inp, out ++ sent limit bytes))
  unfolding write_response wire write_wire
  write_response-sent resp bytes inp out encoded h =
      rw encoded (ap (λ x. (ok resp, x)) (write_twice limit bytes inp out h))

  -- A response is longer than what one `write` of a connection takes, which is at least the four
  -- bytes of a length, and its length fits into these. Then the response is reported as written, but
  -- what was written is its whole length followed by only its first `limit` bytes, which are fewer
  -- than the length announces.
  pub write_response_cut :
      ⦃responses : Codec TcpStateServerResponse⦄ (resp : TcpStateServerResponse)
      (bytes inp out : List ℕ)
      → responses.encode resp ≡ ok bytes
      → 4 ≤ limit
      → limit < length bytes
      → length bytes < 2 ^ 32
      → (write_response (wire limit) resp (inp, out)
          ≡ (ok resp, (inp, out ++ (to_be_bytes 4 (length bytes) ++ take limit bytes))))
        × (length (take limit bytes) < length bytes)
        × (from_be_bytes (to_be_bytes 4 (length bytes)) ≡ length bytes)
  unfolding sent
  write_response_cut resp bytes inp out encoded four long fits =
      let whole : length bytes % 2 ^ 32 ≡ length bytes = omega arith in
      (
        write_response-sent resp bytes inp out encoded four
            ∙ ap (λ n. (ok resp, (inp, out ++ (to_be_bytes 4 n ++ take limit bytes)))) whole,
        omega (arith, length-take limit bytes),
        from_be_bytes-to_be_bytes (length bytes) fits,
      )

  -- A message that arrived whole is read, and what follows it is left.
  pub read_stream-frame :
      ⦃requests : Codec TcpStateServerRequestWrapper⦄ (req : TcpStateServerRequestWrapper)
      (bytes rest out : List ℕ)
      → requests.decode bytes ≡ ok req
      → length bytes < 2 ^ 32
      → read_stream (wire limit) (frame bytes ++ rest, out) ≡ (ok req, (rest, out))
  unfolding read_stream read_request wire frame
  read_stream-frame req bytes rest out decoded h =
      let whole : length bytes % 2 ^ 32 ≡ length bytes = omega arith in
      rw (append_assoc, read_wire_length)
        (rw (whole, from_be_bytes-to_be_bytes (length bytes) h, read_wire-append) (rw decoded))
