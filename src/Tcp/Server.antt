-- ===== src/Tcp/Server.antt =====
-- `TcpStateServer` of src/tcp/server.rs: its state, and the requests that it answers under its lock.
-- The TLS configuration and the listener are not part of the state.
pub mod Init
pub mod Requests
pub mod Rebuild
pub mod Safe
pub mod SafeInit
pub mod Steps
pub mod Hashes
pub mod Growth
pub mod Held
pub mod HashRequests
pub mod Coherence
pub mod Config
pub mod HookLoop
pub mod Preserved
pub mod SafeSteps
pub mod SafeHooks
pub mod SafeRequests
pub mod Answers
pub mod InitTaken
pub mod InitLaws
pub mod InitRace
pub mod Stream
pub mod Listen
pub mod ListenSteps
pub mod Intruders
pub mod Listening
pub mod Connections
use syncstate.Prelude.{
  ℕ, String, refl, true, none, some, List, [], ◌∷◌, lookup, Outcome, ok, err, panic, map_err, ◌>>=◌,
  if◌then◌else◌, ℕ_discrete,
}
use syncstate.HashMap.{HashMap, IterOrder, insert}
use syncstate.Traits.{StateMapKey}
use syncstate.Diff
use syncstate.Diff.{Diff}
use syncstate.Bincode.{Codec}
use syncstate.Event.{Event, deserialize}
use syncstate.StateMap.Defs.{StateMapError, Hash, get_update_id}
use syncstate.StateMap.GetDiff.{get_diff}
use syncstate.Tcp.Hooks.{Mutex, ServerMap, Hook, InitHook, poison_error}
use syncstate.Tcp.Messages.{
  TcpStateServerResponse, update_id, hash_not_found, event_in_process, diff,
}

-- The comparison of two `[u8; 32]`
unfoldable pub hash_discrete : Discrete Hash
unfolding ℕ_discrete
hash_discrete [] [] = yes refl
hash_discrete [] (y ∷ ys) = no (λ e. cc)
hash_discrete (x ∷ xs) [] = no (λ e. cc)
hash_discrete (x ∷ xs) (y ∷ ys) =
    let rest = hash_discrete xs ys in
    elim (ℕ_discrete x y) [
      | yes p ↦ elim rest [ yes q ↦ yes (λ i. p i ∷ q i) | no n ↦ no (λ e. n cc) ]
      | no n ↦ no (λ e. n cc)
    ]

pub data TcpStateServerError : Type 0 where
  io_error rustls_error decode_error encode_error : String → TcpStateServerError
  mutex_poison_error unknown_error : String → TcpStateServerError
  state_map_error : StateMapError → TcpStateServerError

unfoldable pub to_mutex_poison_err : String → TcpStateServerError
to_mutex_poison_err v = mutex_poison_error v

unfoldable pub to_unknown_err : String → TcpStateServerError
to_unknown_err v = unknown_error v

-- An `Arc<Mutex<StateMap>>` is the entry of `statemaps` that holds it: a hash is bound once.
pub record TcpStateServer (K T E : Type 0) : Type 0 where
  pub statemaps : HashMap Hash (Mutex (ServerMap K T))
  pub hooks : List (Hook K T E)
  pub init_hooks : List (InitHook K T)
  pub password : List ℕ
  pub processed_hashes : HashMap Hash (Unit {0})  -- a HashSet

-- A thread that runs hooks: the state map and the event that it was given, and the hooks to come.
pub record Task (K T E : Type 0) : Type 0 where
  pub statemap : Hash
  pub event : Event E
  pub hooks : List (Hook K T E)

module _ {K T E : Type 0} where
  unfoldable pub from_tcp_listner : List (Hook K T E) → List ℕ → TcpStateServer K T E
  from_tcp_listner hooks password = record {
    statemaps = [];
    hooks = hooks;
    init_hooks = [];
    password = password;
    processed_hashes = [];
  }

  unfoldable pub set_init_hooks : List (InitHook K T) → TcpStateServer K T E → TcpStateServer K T E
  set_init_hooks init_hooks serv = record serv { init_hooks = init_hooks }

  unfoldable pub handle_get_update_id :
      Hash → TcpStateServer K T E → Outcome TcpStateServerError TcpStateServerResponse
  unfolding hash_discrete lookup to_mutex_poison_err get_update_id
  handle_get_update_id hash serv = elim (lookup hash_discrete hash serv.statemaps) [
    | some v ↦
        if v.poisoned
        then err (to_mutex_poison_err poison_error)
        else ok (update_id (get_update_id v.inner))
    | none ↦ ok hash_not_found
  ]

  -- For an event that could be read a thread is spawned, which runs the hooks.
  unfoldable pub spawn_hooks :
      Hash
      → List (Hook K T E)
      → Outcome String (Event E)
      → Outcome TcpStateServerError TcpStateServerResponse × List (Task K T E)
  unfolding to_unknown_err
  spawn_hooks hash hooks (ok event) =
      (ok event_in_process, record { statemap = hash; event = event; hooks = hooks } ∷ [])
  spawn_hooks hash hooks (err e) = (err (to_unknown_err e), [])
  spawn_hooks hash hooks panic = (panic, [])

  -- The answer, and the thread that is spawned.
  unfoldable pub handle_event :
      ⦃codec : Codec E⦄
      → Hash
      → List ℕ
      → TcpStateServer K T E
      → Outcome TcpStateServerError TcpStateServerResponse × List (Task K T E)
  unfolding hash_discrete lookup deserialize spawn_hooks
  handle_event hash evt_data serv = elim (lookup hash_discrete hash serv.statemaps) [
    | some v ↦ spawn_hooks hash serv.hooks (deserialize evt_data)
    | none ↦ (ok hash_not_found, [])
  ]

abbrev diff_response :
    {K T : Type 0} ⦃entries : Codec (List (K × T))⦄
    → Diff K T
    → Outcome TcpStateServerError TcpStateServerResponse
diff_response ⦃entries⦄ d = map_err encode_error (entries.encode (Diff.get_diff d)) >>= λ bytes.
    ok (diff d.from_update_id d.upto_update_id (Diff.is_full_update d) bytes)

module _ {K T E : Type 0} ⦃key : StateMapKey K⦄ ⦃order : IterOrder K T key.eq_dec⦄
    ⦃entries : Codec (List (K × T))⦄ where
  -- What `get_diff` of the locked map returned. A panic unwinds through both guards, so it poisons
  -- the map's mutex here, and the server's in `process_locked`.
  unfoldable pub answer_diff :
      Hash
      → Mutex (ServerMap K T)
      → Outcome ⊥ (Diff K T)
      → TcpStateServer K T E
      → Outcome TcpStateServerError TcpStateServerResponse × TcpStateServer K T E
  unfolding Diff.get_diff Diff.is_full_update insert hash_discrete
  answer_diff hash v (ok d) serv = (diff_response d, serv)
  answer_diff hash v (err e) serv = absurd e
  answer_diff hash v panic serv = (
    panic,
    record serv {
      statemaps = insert hash_discrete hash (record v { poisoned = true }) serv.statemaps;
    },
  )

  unfoldable pub lock_and_diff :
      Hash
      → Mutex (ServerMap K T)
      → ℕ
      → ℕ
      → TcpStateServer K T E
      → Outcome TcpStateServerError TcpStateServerResponse × TcpStateServer K T E
  unfolding to_mutex_poison_err get_diff answer_diff
  lock_and_diff hash v from upto serv =
      if v.poisoned
      then (err (to_mutex_poison_err poison_error), serv)
      else answer_diff hash v (get_diff from upto v.inner) serv

  unfoldable pub handle_get_diff :
      Hash
      → ℕ
      → ℕ
      → TcpStateServer K T E
      → Outcome TcpStateServerError TcpStateServerResponse × TcpStateServer K T E
  unfolding hash_discrete lookup lock_and_diff
  handle_get_diff hash from upto serv = elim (lookup hash_discrete hash serv.statemaps) [
    | some v ↦ lock_and_diff hash v from upto serv
    | none ↦ (ok hash_not_found, serv)
  ]
