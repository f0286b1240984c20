-- ===== src/Tcp/Server/InitRace.antt =====
-- Two `Init`s for the same hash at the same time.
use syncstate.Prelude.{ℕ, ◌≡◌, ap, none, List, [], lookup, ok, err, inr, map_err, ◌>>=◌, String}
use syncstate.HashMap.{IterOrder, remove, extend}
use syncstate.Bincode.{Codec}
use syncstate.Traits.{StateMapKey, StateMapValue}
use syncstate.StateMap.Defs.{Hash}
use syncstate.StateMap.Freeze.{Sha256}
use syncstate.Tcp.Hooks.{new_mutex}
use syncstate.Tcp.Messages.{get_diff, init, init_success, hash_not_found}
use syncstate.Tcp.Server.{TcpStateServer, hash_discrete, decode_error}
use syncstate.Tcp.Server.Init.{finish_init, after_build, remove_processed, decode_and_build, build}
use syncstate.Tcp.Server.InitLaws.{pending, start_request-init}
use syncstate.Tcp.Server.InitTaken.{taken, process_request-taken, process_request_unknown}
use syncstate.Tcp.Server.Requests.{start_request, process_request}

module _ {K T E : Type 0} ⦃key : StateMapKey K⦄ ⦃value : StateMapValue T⦄ ⦃sha : Sha256⦄
    ⦃order : IterOrder K T key.eq_dec⦄ ⦃entries : Codec (List (K × T))⦄ ⦃events : Codec E⦄ where
  abbrev pub given_up : Hash → TcpStateServer K T E → TcpStateServer K T E
  given_up hash serv = record serv {
    processed_hashes = remove hash_discrete hash (taken hash serv).processed_hashes;
  }

  finish_init-failed :
      (hash : Hash) (bad_data : List ℕ) (e : String) (serv : TcpStateServer K T E)
      → entries.decode bad_data ≡ err e
      → finish_init (pending hash bad_data serv) (new_mutex (taken hash serv))
        ≡ (err (decode_error e), new_mutex (given_up hash serv))
  unfolding finish_init decode_and_build after_build remove_processed new_mutex
  finish_init-failed hash bad_data e serv bad =
      ap
        (λ o.
          after_build (pending hash bad_data serv)
            (map_err decode_error o >>= λ l. build (extend key.eq_dec [] l))
            (new_mutex (taken hash serv)))
        bad

  -- On a server that does not know a hash, an `Init` for it whose data cannot be decoded lets go of
  -- the lock before it fails. Another `Init` for the hash that is processed in between is answered
  -- with `InitSuccess`, whatever its data. When the first has failed, the server does not know the
  -- hash, and a request for the changes of that map is answered with `HashNotFound`.
  pub init_race :
      (hash : Hash) (bad_data good_data : List ℕ) (e : String) (serv : TcpStateServer K T E)
      (f u : ℕ)
      → entries.decode bad_data ≡ err e
      → lookup hash_discrete hash serv.statemaps ≡ none
      → lookup hash_discrete hash serv.processed_hashes ≡ none
      → (start_request (init hash bad_data) (new_mutex serv)
          ≡ (inr (pending hash bad_data serv), new_mutex (taken hash serv), []))
        × (process_request (init hash good_data) (new_mutex (taken hash serv))
            ≡ (ok init_success, new_mutex (taken hash serv), []))
        × (finish_init (pending hash bad_data serv) (new_mutex (taken hash serv))
            ≡ (err (decode_error e), new_mutex (given_up hash serv)))
        × (process_request (get_diff hash f u) (new_mutex (given_up hash serv))
            ≡ (ok hash_not_found, new_mutex (given_up hash serv), []))
  init_race hash bad_data good_data e serv f u bad p q = (
    start_request-init hash bad_data serv p q,
    process_request-taken hash good_data serv p,
    finish_init-failed hash bad_data e serv bad,
    process_request_unknown hash f u (given_up hash serv) p,
  )
