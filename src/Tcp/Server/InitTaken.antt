-- ===== src/Tcp/Server/InitTaken.antt =====
-- A server on which an `Init` for a hash is under way, or was left so.
use syncstate.Prelude.{ℕ, ◌≡◌, refl, ap, none, List, [], lookup, ok, inl}
use syncstate.HashMap.{IterOrder, insert, lookup-insert_self}
use syncstate.Bincode.{Codec}
use syncstate.Traits.{StateMapKey, StateMapValue}
use syncstate.StateMap.Defs.{Hash}
use syncstate.StateMap.Freeze.{Sha256}
use syncstate.Tcp.Hooks.{new_mutex}
use syncstate.Tcp.Messages.{get_diff, init, init_success, hash_not_found}
use syncstate.Tcp.Server.{TcpStateServer, hash_discrete, handle_get_diff}
use syncstate.Tcp.Server.Init.{begin_init}
use syncstate.Tcp.Server.Requests.{
  start_request, process_locked, process_request, poisons, complete, init_begun,
}

module _ {K T E : Type 0} where
  abbrev pub taken : Hash → TcpStateServer K T E → TcpStateServer K T E
  taken hash serv = record serv {
    processed_hashes = insert hash_discrete hash tt serv.processed_hashes;
  }

module _ {K T E : Type 0} ⦃key : StateMapKey K⦄ ⦃value : StateMapValue T⦄ ⦃sha : Sha256⦄
    ⦃order : IterOrder K T key.eq_dec⦄ ⦃entries : Codec (List (K × T))⦄ ⦃events : Codec E⦄ where
  -- Another `Init` for the hash is told that all went well.
  pub process_request-taken :
      (hash : Hash) (init_data : List ℕ) (serv : TcpStateServer K T E)
      → lookup hash_discrete hash serv.statemaps ≡ none
      → process_request (init hash init_data) (new_mutex (taken hash serv))
        ≡ (ok init_success, new_mutex (taken hash serv), [])
  unfolding process_request complete start_request process_locked init_begun begin_init new_mutex
  process_request-taken hash init_data serv p =
      let again : begin_init hash init_data (taken hash serv)
          ≡ (inl init_success, taken hash serv) =
        rw (begin_init, p)
          (rw (lookup-insert_self hash_discrete hash tt serv.processed_hashes) refl) in
      ap (λ x. complete (init_begun x)) again

  -- A server without the map has no changes of it.
  pub process_request_unknown :
      (hash : Hash) (f u : ℕ) (serv : TcpStateServer K T E)
      → lookup hash_discrete hash serv.statemaps ≡ none
      → process_request (get_diff hash f u) (new_mutex serv)
        ≡ (ok hash_not_found, new_mutex serv, [])
  unfolding process_request complete start_request process_locked new_mutex handle_get_diff poisons
  process_request_unknown hash f u serv p =
      let unknown : handle_get_diff hash f u serv ≡ (ok hash_not_found, serv) =
        rw (handle_get_diff, p) refl in
      ap (λ x. (x.0, poisons x.0 x.1, [])) unknown
