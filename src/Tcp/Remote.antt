-- ===== src/Tcp/Remote.antt =====
-- src/tcp/remote.rs: `TcpStateRemote`, over a stream that is a record of functions. The address and
-- the TLS configuration are part of the stream.
use syncstate.Prelude.{
  ℕ, ◌^◌, ◌%◌, String, List, Option, none, some, Outcome, ok, err, panic, ◌>>=◌, length,
  to_be_bytes, from_be_bytes, [],
}
use syncstate.HashMap.{IterOrder, extend}
use syncstate.Traits.{StateMapKey}
use syncstate.Bincode.{Codec}
use syncstate.Diff
use syncstate.Diff.{Diff}
use syncstate.StateMap.Defs.{StateMap, Hash, Remote, into_iter}
use syncstate.Remote.{EventBroadcaster}
use syncstate.Tcp.Messages.{
  TcpStateServerRequest, TcpStateServerRequestWrapper, TcpStateServerResponse, hash_not_found,
  event_in_process, init_success, diff, get_update_id, event, get_diff, init,
}
use syncstate.Tcp.Server.Stream.{TlsStream}

pub record TcpStateRemote : Type 0 where
  pub password : List ℕ

abbrev pub new : List ℕ → TcpStateRemote
new password = record { password = password }

pub data BasicError : Type 0 where
  unknown : String → BasicError

-- `#[error("Err: ")]`: the text does not contain the message. The messages stand here without the
-- response that they end with, since its `Debug` text is not modelled.
unfoldable pub basic_error_text : BasicError → String
basic_error_text (unknown message) = "Err: "

-- `?` into a `Box<dyn Error>`
abbrev pub question :
    {A B W : Type 0} → Outcome String A × W → (A → W → Outcome String B × W) → Outcome String B × W
question (ok a, w) next = next a w
question (err e, w) next = (err e, w)
question (panic, w) next = (panic, w)

module _ {W : Type 0} ⦃requests : Codec TcpStateServerRequestWrapper⦄
    ⦃responses : Codec TcpStateServerResponse⦄ (stream : TlsStream W) where
  unfoldable pub send_request :
      TcpStateRemote → TcpStateServerRequest → W → Outcome String TcpStateServerResponse × W
  send_request r request w = question (stream.connect w) (λ u w1.
      question (requests.encode (record { password = r.password; event = request }), w1)
        (λ req_buffer w2.
          question (stream.write (to_be_bytes 4 (length req_buffer % 2 ^ 32)) w2) (λ n w3.
            question (stream.write req_buffer w3) (λ m w4.
              question (stream.read_exact 4 w4) (λ len_buf w5.
                question (stream.read_exact (from_be_bytes len_buf) w5)
                  (λ buffer w6. (responses.decode buffer, w6)))))))

  unfoldable pub sent_event : TcpStateServerResponse → Outcome String (Unit {0})
  unfolding basic_error_text
  sent_event event_in_process = ok tt
  sent_event _ = err (basic_error_text (unknown "Unknown error: "))

  unfoldable pub send_event : TcpStateRemote → List ℕ → Hash → W → Outcome String (Unit {0}) × W
  unfolding send_request sent_event
  send_event r encoded_event hash w =
      question (send_request r (event hash encoded_event) w) (λ resp w'. (sent_event resp, w'))

  unfoldable pub tcp_broadcaster : EventBroadcaster TcpStateRemote W
  unfolding send_event
  tcp_broadcaster = record { send_event = send_event }

module _ {K T : Type 0} ⦃codec : Codec (List (K × T))⦄ where
  -- The response to a request for a diff.
  unfoldable pub received_diff : TcpStateServerResponse → Outcome String (Diff K T)
  unfolding Diff.new basic_error_text
  received_diff (diff from upto is_full encoded_diff) =
      codec.decode encoded_diff >>= λ d. ok (Diff.new d is_full from upto)
  received_diff _ = err (basic_error_text (unknown "Expected Diff as response, recieved: "))

module _ {K T W : Type 0} ⦃entries : Codec (List (K × T))⦄
    ⦃requests : Codec TcpStateServerRequestWrapper⦄ ⦃responses : Codec TcpStateServerResponse⦄
    (stream : TlsStream W) where
  unfoldable pub fetch_updates : TcpStateRemote → ℕ → ℕ → Hash → W → Outcome String (Diff K T) × W
  unfolding send_request received_diff
  fetch_updates r update_id_current update_id_new hash w =
      question (send_request stream r (get_diff hash update_id_current update_id_new) w)
        (λ resp w'. (received_diff resp, w'))

unfoldable pub inited : TcpStateServerResponse → Outcome String (Unit {0})
unfolding basic_error_text
inited init_success = ok tt
inited _ = err (basic_error_text (unknown "Initialization response is not success: "))

module _ {K T W : Type 0} ⦃key : StateMapKey K⦄ ⦃order : IterOrder K T key.eq_dec⦄
    ⦃entries : Codec (List (K × T))⦄ ⦃requests : Codec TcpStateServerRequestWrapper⦄
    ⦃responses : Codec TcpStateServerResponse⦄ (stream : TlsStream W) where
  -- The second request, which is sent if the server does not know the hash. The entries are
  -- collected into another map, which is then encoded in its own order.
  unfoldable pub send_init :
      TcpStateRemote → Hash → StateMap K T TcpStateRemote → W → Outcome String (Unit {0}) × W
  unfolding send_request inited extend into_iter
  send_init r hash statemap w =
      question (entries.encode (order.iter (extend key.eq_dec [] (into_iter statemap))), w)
        (λ init_data w1.
          question (send_request stream r (init hash init_data) w1) (λ resp w2. (inited resp, w2)))

  unfoldable pub after_lookup :
      TcpStateServerResponse
      → TcpStateRemote
      → Hash
      → StateMap K T TcpStateRemote
      → W
      → Outcome String (Unit {0}) × W
  unfolding send_init
  after_lookup hash_not_found r hash statemap w = send_init r hash statemap w
  after_lookup _ r hash statemap w = (ok tt, w)

  -- `init` for the hash of the map; `expect` panics if there is none.
  unfoldable pub init_hashed :
      Option Hash → TcpStateRemote → StateMap K T TcpStateRemote → W → Outcome String (Unit {0}) × W
  unfolding send_request after_lookup
  init_hashed none r statemap w = (panic, w)
  init_hashed (some hash) r statemap w =
      question (send_request stream r (get_update_id hash) w)
        (λ resp w'. after_lookup resp r hash statemap w')

  unfoldable pub tcp_remote : Remote K T TcpStateRemote W
  unfolding fetch_updates init_hashed
  tcp_remote = record {
    fetch_updates = fetch_updates stream;
    init = λ r statemap w. init_hashed statemap.hash r statemap w;
  }
