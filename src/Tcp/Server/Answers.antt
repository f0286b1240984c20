-- ===== src/Tcp/Server/Answers.antt =====
-- What single requests are answered, and what they leave of the server.
use syncstate.Prelude.{ℕ, ◌<◌, ◌≡◌, refl, ap, sym, true, some, List, [], lookup, err, panic, subst}
use syncstate.HashMap.{IterOrder, insert}
use syncstate.Bincode.{Codec}
use syncstate.Traits.{StateMapKey, StateMapValue}
use syncstate.StateMap.Defs.{Hash}
use syncstate.StateMap.Freeze.{Sha256}
use syncstate.StateMap.GetDiff
use syncstate.StateMap.GetDiff.Ranges.{get_diff-backwards}
use syncstate.StateMap.History.{IsMaster}
use syncstate.Tcp.Hooks.{Mutex, ServerMap, new_mutex, poison_error}
use syncstate.Tcp.Messages.{TcpStateServerRequest, get_diff}
use syncstate.Tcp.Server.{
  TcpStateServer, hash_discrete, handle_get_diff, lock_and_diff, answer_diff, mutex_poison_error,
  to_mutex_poison_err,
}
use syncstate.Tcp.Server.Requests.{
  start_request, process_locked, process_request, poisons, complete, Handled,
}

module _ {K T E : Type 0} ⦃key : StateMapKey K⦄ ⦃value : StateMapValue T⦄ ⦃sha : Sha256⦄
    ⦃order : IterOrder K T key.eq_dec⦄ ⦃entries : Codec (List (K × T))⦄ ⦃events : Codec E⦄ where
  request_on_poisoned :
      (r : TcpStateServerRequest) (server : Mutex (TcpStateServer K T E))
      → server.poisoned ≡ true
      → process_request r server ≡ (err (mutex_poison_error poison_error), server, [])
  unfolding process_request start_request to_mutex_poison_err complete
  request_on_poisoned r server h = rw (h, process_request, start_request) refl

  -- The thread of a request panics, and every request that comes after it is refused.
  abbrev pub IsDown : Handled K T E → Type 0
  IsDown handled =
      (handled.0 ≡ panic)
      × ((r : TcpStateServerRequest)
          → process_request r handled.1 ≡ (err (mutex_poison_error poison_error), handled.1, []))

  handle_get_diff_panics :
      (hash : Hash) (f u : ℕ) (serv : TcpStateServer K T E) (s : ServerMap K T)
      → lookup hash_discrete hash serv.statemaps ≡ some (new_mutex s)
      → GetDiff.get_diff f u s ≡ panic
      → handle_get_diff hash f u serv ≡ (
        panic,
        record serv {
          statemaps =
              insert hash_discrete hash (record { inner = s; poisoned = true }) serv.statemaps;
        },
      )
  unfolding new_mutex answer_diff lock_and_diff handle_get_diff
  handle_get_diff_panics hash f u serv s found back =
      rw (found, handle_get_diff) (ap (λ o. answer_diff hash (new_mutex s) o serv) back)

  -- One request for the changes from a past update id of a stored master back to a smaller id makes
  -- the thread panic under the server's lock. From then on every request, for whatever map, fails
  -- with `MutexPoisonError` and does nothing.
  pub get_diff-IsDown :
      (hash : Hash) (f u : ℕ) (serv : TcpStateServer K T E) (s : ServerMap K T)
      → lookup hash_discrete hash serv.statemaps ≡ some (new_mutex s)
      → IsMaster s
      → f < s.update_id
      → u < f
      → IsDown (process_request (get_diff hash f u) (new_mutex serv))
  unfolding process_request start_request process_locked complete poisons new_mutex
  get_diff-IsDown hash f u serv s found m p q =
      subst IsDown
        (sym (
          ap (λ x. (x.0, poisons x.0 x.1, []))
            (handle_get_diff_panics hash f u serv s found
              (get_diff-backwards s m.history f u p q))))
        (refl, λ r. request_on_poisoned r _ refl)
