-- ===== src/Tests/Codecs.antt =====
-- Lists of numbers as the bytes of requests and answers. The text of an `InitFailure` is not encoded.
use syncstate.Prelude.{
  ◌≡◌, ◌∙◌, ap, sym, ok_inj, true, false, String, List, [], ◌∷◌, ◌++◌, length, take, drop, Outcome,
  ok, err, ℕ, zero, suc, refl, panic,
}
use syncstate.Bincode.{Codec}
use syncstate.Tcp.Messages.{
  TcpStateServerRequest, TcpStateServerRequestWrapper, TcpStateServerResponse, get_update_id, event,
  get_diff, init, incorrect_password, hash_not_found, update_id, event_in_process, init_success,
  hash_mismatch, diff, init_failure,
}
use syncstate.Tcp.Wire.Frames.{take_left, drop_left}

abbrev request_numbers : TcpStateServerRequest → List ℕ
request_numbers (get_update_id hash) = 0 ∷ 0 ∷ hash
request_numbers (event hash bs) = 0 ∷ 1 ∷ length hash ∷ hash ++ bs
request_numbers (get_diff hash f u) = 1 ∷ 0 ∷ f ∷ u ∷ hash
request_numbers (init hash bs) = 1 ∷ 1 ∷ length hash ∷ hash ++ bs

abbrev request_of_numbers : List ℕ → Outcome String TcpStateServerRequest
request_of_numbers (zero ∷ zero ∷ hash) = ok (get_update_id hash)
request_of_numbers (zero ∷ suc zero ∷ n ∷ l) = ok (event (take n l) (drop n l))
request_of_numbers (suc zero ∷ zero ∷ f ∷ u ∷ hash) = ok (get_diff hash f u)
request_of_numbers (suc zero ∷ suc zero ∷ n ∷ l) = ok (init (take n l) (drop n l))
request_of_numbers _ = err "not a request"

request_of_numbers_of : (e : TcpStateServerRequest) → request_of_numbers (request_numbers e) ≡ ok e
request_of_numbers_of (get_update_id hash) = refl
request_of_numbers_of (event hash bs) = λ i. ok (event (take_left hash bs i) (drop_left hash bs i))
request_of_numbers_of (get_diff hash f u) = refl
request_of_numbers_of (init hash bs) = λ i. ok (init (take_left hash bs i) (drop_left hash bs i))

abbrev with_password :
    List ℕ → Outcome String TcpStateServerRequest → Outcome String TcpStateServerRequestWrapper
with_password password (ok e) = ok (record { password = password; event = e })
with_password password (err e) = err e
with_password password panic = panic

abbrev wrapper_of_numbers : List ℕ → Outcome String TcpStateServerRequestWrapper
wrapper_of_numbers [] = err "not a request"
wrapper_of_numbers (n ∷ l) = with_password (take n l) (request_of_numbers (drop n l))

pub wrapper_of_bytes :
    (w : TcpStateServerRequestWrapper) (bytes : List ℕ)
    → ◌≡◌ {A = Outcome String (List ℕ)}
        (ok (length w.password ∷ w.password ++ request_numbers w.event))
        (ok bytes)
    → wrapper_of_numbers bytes ≡ ok w
wrapper_of_bytes w bytes h =
    let l = request_numbers w.event in
    ap wrapper_of_numbers (sym (ok_inj h))
    ∙ (λ i.
        with_password (take_left w.password l i) (request_of_numbers (drop_left w.password l i)))
    ∙ ap (with_password w.password) (request_of_numbers_of w.event)

instance abbrev pub request_bytes : Codec TcpStateServerRequestWrapper
request_bytes = record {
  encode = λ w. ok (length w.password ∷ w.password ++ request_numbers w.event);
  decode = wrapper_of_numbers;
  decode-encode = wrapper_of_bytes;
}

abbrev encode_response : TcpStateServerResponse → Outcome String (List ℕ)
encode_response incorrect_password = ok (0 ∷ 0 ∷ 0 ∷ [])
encode_response hash_not_found = ok (0 ∷ 0 ∷ 1 ∷ [])
encode_response (update_id n) = ok (0 ∷ 1 ∷ 0 ∷ n ∷ [])
encode_response event_in_process = ok (0 ∷ 1 ∷ 1 ∷ [])
encode_response init_success = ok (1 ∷ 0 ∷ 0 ∷ [])
encode_response hash_mismatch = ok (1 ∷ 0 ∷ 1 ∷ [])
encode_response (diff f u true bs) = ok (1 ∷ 1 ∷ 0 ∷ f ∷ u ∷ bs)
encode_response (diff f u false bs) = ok (1 ∷ 1 ∷ 1 ∷ f ∷ u ∷ bs)
encode_response (init_failure m) = err "not sent"

abbrev decode_response : List ℕ → Outcome String TcpStateServerResponse
decode_response (zero ∷ zero ∷ zero ∷ l) = ok incorrect_password
decode_response (zero ∷ zero ∷ suc zero ∷ l) = ok hash_not_found
decode_response (zero ∷ suc zero ∷ zero ∷ n ∷ l) = ok (update_id n)
decode_response (zero ∷ suc zero ∷ suc zero ∷ l) = ok event_in_process
decode_response (suc zero ∷ zero ∷ zero ∷ l) = ok init_success
decode_response (suc zero ∷ zero ∷ suc zero ∷ l) = ok hash_mismatch
decode_response (suc zero ∷ suc zero ∷ zero ∷ f ∷ u ∷ bs) = ok (diff f u true bs)
decode_response (suc zero ∷ suc zero ∷ suc zero ∷ f ∷ u ∷ bs) = ok (diff f u false bs)
decode_response _ = err "not an answer"

pub response_of_bytes :
    (r : TcpStateServerResponse) (bytes : List ℕ)
    → encode_response r ≡ ok bytes
    → decode_response bytes ≡ ok r
response_of_bytes incorrect_password bytes h = ap decode_response (sym (ok_inj h))
response_of_bytes hash_not_found bytes h = ap decode_response (sym (ok_inj h))
response_of_bytes (update_id n) bytes h = ap decode_response (sym (ok_inj h))
response_of_bytes event_in_process bytes h = ap decode_response (sym (ok_inj h))
response_of_bytes init_success bytes h = ap decode_response (sym (ok_inj h))
response_of_bytes hash_mismatch bytes h = ap decode_response (sym (ok_inj h))
response_of_bytes (diff f u true bs) bytes h = ap decode_response (sym (ok_inj h))
response_of_bytes (diff f u false bs) bytes h = ap decode_response (sym (ok_inj h))
response_of_bytes (init_failure m) bytes h = absurd cc

instance abbrev pub response_bytes : Codec TcpStateServerResponse
response_bytes = record {
  encode = encode_response;
  decode = decode_response;
  decode-encode = response_of_bytes;
}
