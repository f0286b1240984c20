-- ===== src/Tcp/Server/Init.antt =====
-- The request `Init` of `process_request` in src/tcp/server.rs. It takes the server's lock twice:
-- `begin_init` is what it does the first time, `finish_init` all that follows.
use syncstate.Prelude.{
  ℕ, String, true, Option, none, some, List, [], ◌∷◌, Outcome, ok, err, panic, map_err, ◌>>=◌,
  if◌then◌else◌, ite, ◌⊎◌, inl, inr,
}
use syncstate.HashMap.{HashMap, IterOrder, insert, extend, remove, contains_key}
use syncstate.Traits.{StateMapKey, StateMapValue}
use syncstate.Bincode.{Codec}
use syncstate.StateMap.Defs.{StateMapError, Hash, new, set_master}
use syncstate.StateMap.Build.{push_all}
use syncstate.StateMap.Freeze.{Sha256, freeze}
use syncstate.Remote.{dummy, dummy_remote}
use syncstate.Tcp.Hooks.{Mutex, ServerMap, InitHook, new_mutex, poison_error}
use syncstate.Tcp.Messages.{TcpStateServerResponse, init_success, hash_mismatch, init_failure}
use syncstate.Tcp.Server.{
  TcpStateServer, TcpStateServerError, hash_discrete, decode_error, state_map_error,
  to_mutex_poison_err,
}

-- An `Init` that has let go of the lock, with the hooks that it took along.
pub record PendingInit (K T : Type 0) : Type 0 where
  pub hash : Hash
  pub init_data : List ℕ
  pub init_hooks : List (InitHook K T)

-- `Result::expect`, and `?` on the errors of a state map
abbrev pub expect : Outcome StateMapError (Unit {0}) → Outcome TcpStateServerError (Unit {0})
expect (ok a) = ok a
expect (err e) = panic
expect panic = panic

module _ {K T E : Type 0} where
  -- Either the answer, or what is still to be done; and the server.
  unfoldable pub begin_init :
      Hash
      → List ℕ
      → TcpStateServer K T E
      → (TcpStateServerResponse ⊎ PendingInit K T) × TcpStateServer K T E
  unfolding insert hash_discrete
  begin_init hash init_data serv =
      if contains_key hash_discrete hash serv.statemaps
      then (inl init_success, serv)
      else if contains_key hash_discrete hash serv.processed_hashes
      then (inl init_success, serv)
      else (
        inr (record { hash = hash; init_data = init_data; init_hooks = serv.init_hooks }),
        record serv { processed_hashes = insert hash_discrete hash tt serv.processed_hashes },
      )

  -- `if let Ok(mut server_lock) = server.lock() { server_lock.processed_hashes.remove(&hash); }`
  unfoldable pub remove_processed :
      Hash → Mutex (TcpStateServer K T E) → Mutex (TcpStateServer K T E)
  unfolding remove hash_discrete
  remove_processed hash server = if server.poisoned then server else record server {
    inner = record server.inner {
      processed_hashes = remove hash_discrete hash server.inner.processed_hashes;
    };
  }

  -- After the hooks the lock is taken again.
  unfoldable pub register :
      Hash
      → Mutex (ServerMap K T)
      → Mutex (TcpStateServer K T E)
      → Outcome TcpStateServerError TcpStateServerResponse × Mutex (TcpStateServer K T E)
  unfolding remove insert hash_discrete to_mutex_poison_err
  register hash stmap server =
      if server.poisoned then (err (to_mutex_poison_err poison_error), server) else (
        ok init_success,
        record server {
          inner = record server.inner {
            statemaps = insert hash_discrete hash stmap server.inner.statemaps;
            processed_hashes = remove hash_discrete hash server.inner.processed_hashes;
          };
        },
      )

module _ {K T : Type 0} where
  -- The loop goes on after a hook that returned `Ok`.
  abbrev pub next_hook :
      Outcome String (Unit {0}) × Mutex (ServerMap K T)
      → (Mutex (ServerMap K T) → Outcome String (Unit {0}) × Mutex (ServerMap K T))
      → Outcome String (Unit {0}) × Mutex (ServerMap K T)
  next_hook (ok a, m) rest = rest m
  next_hook (err e, m) rest = (err e, m)
  next_hook (panic, m) rest = (panic, m)

  unfoldable pub run_init_hooks :
      List (InitHook K T)
      → Mutex (ServerMap K T)
      → Outcome String (Unit {0}) × Mutex (ServerMap K T)
  run_init_hooks [] m = (ok tt, m)
  run_init_hooks (hook ∷ hooks) m = next_hook (hook.process_init m) (run_init_hooks hooks)

module _ {K T : Type 0} ⦃key : StateMapKey K⦄ ⦃value : StateMapValue T⦄ ⦃sha : Sha256⦄
    ⦃order : IterOrder K T key.eq_dec⦄ where
  -- A new master with the entries of `raw_map`, frozen.
  unfoldable pub build : HashMap K T → Outcome TcpStateServerError (ServerMap K T)
  unfolding new push_all set_master freeze dummy_remote
  build raw_map =
      let pushed = push_all (order.iter raw_map) (new dummy) in
      let to_master = set_master true pushed.1 in
      let frozen_map = freeze {W = Unit {0}} dummy_remote to_master.1 tt in
      expect pushed.0 >>= λ u.
      expect to_master.0 >>= λ v. map_err state_map_error frozen_map.0 >>= λ w. ok frozen_map.1

  -- serde reads a `HashMap` by inserting the entries that are listed.
  unfoldable pub decode_and_build :
      ⦃entries : Codec (List (K × T))⦄ → List ℕ → Outcome TcpStateServerError (ServerMap K T)
  unfolding extend build
  decode_and_build ⦃entries⦄ init_data =
      map_err decode_error (entries.decode init_data) >>= λ l. build (extend key.eq_dec [] l)

module _ {K T E : Type 0} where
  unfoldable pub after_hooks :
      Hash
      → Outcome String (Unit {0}) × Mutex (ServerMap K T)
      → Mutex (TcpStateServer K T E)
      → Outcome TcpStateServerError TcpStateServerResponse × Mutex (TcpStateServer K T E)
  unfolding register remove_processed
  after_hooks hash (ok a, m) server = register hash m server
  after_hooks hash (err e, m) server = (ok (init_failure e), remove_processed hash server)
  after_hooks hash (panic, m) server = (panic, server)

  -- `stmap.hash().unwrap() != &hash`, and what follows.
  unfoldable pub after_hash :
      PendingInit K T
      → ServerMap K T
      → Option Hash
      → Mutex (TcpStateServer K T E)
      → Outcome TcpStateServerError TcpStateServerResponse × Mutex (TcpStateServer K T E)
  unfolding after_hooks run_init_hooks new_mutex hash_discrete
  after_hash p stmap none server = (panic, server)
  after_hash p stmap (some h) server =
      ite (hash_discrete h p.hash)
        (after_hooks p.hash (run_init_hooks p.init_hooks (new_mutex stmap)) server)
        (ok hash_mismatch, server)

  unfoldable pub after_build :
      PendingInit K T
      → Outcome TcpStateServerError (ServerMap K T)
      → Mutex (TcpStateServer K T E)
      → Outcome TcpStateServerError TcpStateServerResponse × Mutex (TcpStateServer K T E)
  unfolding remove_processed after_hash
  after_build p (ok stmap) server = after_hash p stmap stmap.hash server
  after_build p (err e) server = (err e, remove_processed p.hash server)
  after_build p panic server = (panic, server)

  unfoldable pub finish_init :
      ⦃key : StateMapKey K⦄ ⦃value : StateMapValue T⦄ ⦃sha : Sha256⦄
      ⦃order : IterOrder K T key.eq_dec⦄ ⦃entries : Codec (List (K × T))⦄
      → PendingInit K T
      → Mutex (TcpStateServer K T E)
      → Outcome TcpStateServerError TcpStateServerResponse × Mutex (TcpStateServer K T E)
  unfolding decode_and_build after_build
  finish_init p server = after_build p (decode_and_build p.init_data) server
