-- ===== src/Tcp/Server/Config.antt =====
-- What a server is set up with: its hooks and its password, in each step of its threads.
use syncstate.Prelude.{
  ℕ, ◌≡◌, refl, ◌∙◌, some, none, Option, List, [], ◌∷◌, lookup, Outcome, ok, err, panic, inl, inr,
  ◌⊎◌, ite, Bool-cases, Option-cases, String,
}
use syncstate.HashMap.{IterOrder, contains_key}
use syncstate.Bincode.{Codec}
use syncstate.Traits.{StateMapKey, StateMapValue}
use syncstate.Diff.{Diff}
use syncstate.StateMap.Defs.{Hash}
use syncstate.StateMap.Freeze.{Sha256}
use syncstate.StateMap.GetDiff
use syncstate.Tcp.Hooks.{Mutex, Hook, ServerMap, new_mutex}
use syncstate.Tcp.Messages.{
  TcpStateServerRequest, TcpStateServerResponse, hash_mismatch, get_update_id, event, get_diff,
  init,
}
use syncstate.Tcp.Server.{
  TcpStateServer, TcpStateServerError, Task, hash_discrete, handle_get_diff, lock_and_diff,
  answer_diff, handle_get_update_id, handle_event,
}
use syncstate.Tcp.Server.Init.{
  PendingInit, begin_init, finish_init, after_build, after_hash, after_hooks, register,
  remove_processed, run_init_hooks, decode_and_build,
}
use syncstate.Tcp.Server.Requests.{start_request, process_locked, poisons, init_begun}
use syncstate.Tcp.Server.Steps.{
  System, Reachable, start, serve_request, finish_pending, run_next_hook, run_hook, run_on,
}

module _ {K T E : Type 0} where
  abbrev pub SameConfig : TcpStateServer K T E → TcpStateServer K T E → Type 0
  SameConfig serv serv' =
      (serv'.hooks ≡ serv.hooks)
      × (serv'.init_hooks ≡ serv.init_hooks)
      × (serv'.password ≡ serv.password)

  SameConfig-trans :
      (a b c : TcpStateServer K T E) → SameConfig a b → SameConfig b c → SameConfig a c
  SameConfig-trans a b c (p, q, r) (p', q', r') = (p' ∙ p, q' ∙ q, r' ∙ r)

  begin_init-SameConfig :
      (hash : Hash) (init_data : List ℕ) (serv : TcpStateServer K T E)
      → SameConfig serv (begin_init hash init_data serv).1
  unfolding begin_init
  begin_init-SameConfig hash init_data serv =
      elim (Bool-cases (contains_key hash_discrete hash serv.statemaps)) [
        | inl p ↦ rw (p, begin_init) (refl, refl, refl)
        | inr p ↦ elim (Bool-cases (contains_key hash_discrete hash serv.processed_hashes)) [
          | inl q ↦ rw (p, q, begin_init) (refl, refl, refl)
          | inr q ↦ rw (p, q, begin_init) (refl, refl, refl)
        ]
      ]

  register-SameConfig :
      (hash : Hash) (m : Mutex (ServerMap K T)) (server : Mutex (TcpStateServer K T E))
      → SameConfig server.inner (register hash m server).1.inner
  unfolding register
  register-SameConfig hash m server = elim (Bool-cases server.poisoned) [
    | inl p ↦ rw (p, register) (refl, refl, refl)
    | inr p ↦ rw (p, register) (refl, refl, refl)
  ]

  remove_processed-SameConfig :
      (hash : Hash) (server : Mutex (TcpStateServer K T E))
      → SameConfig server.inner (remove_processed hash server).inner
  unfolding remove_processed
  remove_processed-SameConfig hash server = elim (Bool-cases server.poisoned) [
    | inl p ↦ rw (p, remove_processed) (refl, refl, refl)
    | inr p ↦ rw (p, remove_processed) (refl, refl, refl)
  ]

  after_hooks-SameConfig :
      (hash : Hash) (r : Outcome String (Unit {0}) × Mutex (ServerMap K T))
      (server : Mutex (TcpStateServer K T E))
      → SameConfig server.inner (after_hooks hash r server).1.inner
  unfolding after_hooks
  after_hooks-SameConfig hash (ok a, m) server = register-SameConfig hash m server
  after_hooks-SameConfig hash (err e, m) server = remove_processed-SameConfig hash server
  after_hooks-SameConfig hash (panic, m) server = (refl, refl, refl)

  after_hash-SameConfig :
      (p : PendingInit K T) (s : ServerMap K T) (d : Option Hash)
      (server : Mutex (TcpStateServer K T E))
      → SameConfig server.inner (after_hash p s d server).1.inner
  unfolding after_hash
  after_hash-SameConfig p s none server = (refl, refl, refl)
  after_hash-SameConfig p s (some d) server =
      let ran = run_init_hooks p.init_hooks (new_mutex s) in
      let done = after_hooks p.hash ran server in
      elim (hash_discrete d p.hash)
        as (λ x. SameConfig server.inner (ite x done (ok hash_mismatch, server)).1.inner) [
          | yes e ↦ after_hooks-SameConfig p.hash ran server
          | no n ↦ (refl, refl, refl)
        ]

  after_build-SameConfig :
      (p : PendingInit K T) (o : Outcome TcpStateServerError (ServerMap K T))
      (server : Mutex (TcpStateServer K T E))
      → SameConfig server.inner (after_build p o server).1.inner
  unfolding after_build
  after_build-SameConfig p (ok s) server = after_hash-SameConfig p s s.hash server
  after_build-SameConfig p (err e) server = remove_processed-SameConfig p.hash server
  after_build-SameConfig p panic server = (refl, refl, refl)

  finish_init-SameConfig :
      ⦃key : StateMapKey K⦄ ⦃value : StateMapValue T⦄ ⦃sha : Sha256⦄
      ⦃order : IterOrder K T key.eq_dec⦄ ⦃entries : Codec (List (K × T))⦄ (p : PendingInit K T)
      (server : Mutex (TcpStateServer K T E))
      → SameConfig server.inner (finish_init p server).1.inner
  unfolding finish_init
  finish_init-SameConfig p server = after_build-SameConfig p (decode_and_build p.init_data) server

  run_on-SameConfig :
      (task : Task K T E) (hooks : List (Hook K T E)) (v : Option (Mutex (ServerMap K T)))
      (serv : TcpStateServer K T E)
      → SameConfig serv (run_on task hooks v serv).0
  unfolding run_on
  run_on-SameConfig task [] v serv = (refl, refl, refl)
  run_on-SameConfig task (hook ∷ hooks) none serv = (refl, refl, refl)
  run_on-SameConfig task (hook ∷ hooks) (some v) serv = (refl, refl, refl)

  run_hook-SameConfig :
      (task : Task K T E) (serv : TcpStateServer K T E) → SameConfig serv (run_hook task serv).0
  unfolding run_hook
  run_hook-SameConfig task serv =
      run_on-SameConfig task task.hooks (lookup hash_discrete task.statemap serv.statemaps) serv

  poisons-SameConfig :
      (o : Outcome TcpStateServerError TcpStateServerResponse) (serv serv' : TcpStateServer K T E)
      → SameConfig serv serv'
      → SameConfig serv (poisons o serv').inner
  unfolding poisons new_mutex
  poisons-SameConfig (ok a) serv serv' h = h
  poisons-SameConfig (err e) serv serv' h = h
  poisons-SameConfig panic serv serv' h = h

  init_begun-SameConfig :
      (serv : TcpStateServer K T E)
      (b : (TcpStateServerResponse ⊎ PendingInit K T) × TcpStateServer K T E)
      → SameConfig serv b.1
      → SameConfig serv (init_begun b).1.inner
  unfolding init_begun new_mutex
  init_begun-SameConfig serv (inl answer, serv') h = h
  init_begun-SameConfig serv (inr pending, serv') h = h

module _ {K T E : Type 0} ⦃key : StateMapKey K⦄ ⦃order : IterOrder K T key.eq_dec⦄
    ⦃entries : Codec (List (K × T))⦄ where
  answer_diff-SameConfig :
      (hash : Hash) (v : Mutex (ServerMap K T)) (d : Outcome ⊥ (Diff K T))
      (serv : TcpStateServer K T E)
      → SameConfig serv (answer_diff hash v d serv).1
  unfolding answer_diff
  answer_diff-SameConfig hash v (ok d) serv = (refl, refl, refl)
  answer_diff-SameConfig hash v (err e) serv = absurd e
  answer_diff-SameConfig hash v panic serv = (refl, refl, refl)

  handle_get_diff-SameConfig :
      (hash : Hash) (f u : ℕ) (serv : TcpStateServer K T E)
      → SameConfig serv (handle_get_diff hash f u serv).1
  unfolding handle_get_diff lock_and_diff
  handle_get_diff-SameConfig hash f u serv =
      elim (Option-cases (lookup hash_discrete hash serv.statemaps)) [
        | inl gone ↦ rw (gone, handle_get_diff) (refl, refl, refl)
        | inr (v, found) ↦
            rw (found, handle_get_diff)
              (elim (Bool-cases v.poisoned) [
                | inl p ↦ rw (p, lock_and_diff) (refl, refl, refl)
                | inr p ↦
                    rw (p, lock_and_diff)
                      (answer_diff-SameConfig hash v (GetDiff.get_diff f u v.inner) serv)
              ])
      ]

module _ {K T E : Type 0} ⦃key : StateMapKey K⦄ ⦃value : StateMapValue T⦄ ⦃sha : Sha256⦄
    ⦃order : IterOrder K T key.eq_dec⦄ ⦃entries : Codec (List (K × T))⦄ ⦃events : Codec E⦄ where
  process_locked-SameConfig :
      (r : TcpStateServerRequest) (serv : TcpStateServer K T E)
      → SameConfig serv (process_locked r serv).1.inner
  unfolding process_locked
  process_locked-SameConfig (get_update_id hash) serv =
      poisons-SameConfig (handle_get_update_id hash serv) serv serv (refl, refl, refl)
  process_locked-SameConfig (event hash bs) serv =
      poisons-SameConfig (handle_event hash bs serv).0 serv serv (refl, refl, refl)
  process_locked-SameConfig (get_diff hash f u) serv =
      poisons-SameConfig (handle_get_diff hash f u serv).0 serv _
        (handle_get_diff-SameConfig hash f u serv)
  process_locked-SameConfig (init hash bs) serv =
      init_begun-SameConfig serv (begin_init hash bs serv) (begin_init-SameConfig hash bs serv)

  start_request-SameConfig :
      (r : TcpStateServerRequest) (server : Mutex (TcpStateServer K T E))
      → SameConfig server.inner (start_request r server).1.inner
  unfolding start_request
  start_request-SameConfig r server = elim (Bool-cases server.poisoned) [
    | inl p ↦ rw (p, start_request) (refl, refl, refl)
    | inr p ↦ rw (p, start_request) (process_locked-SameConfig r server.inner)
  ]

  -- In every run of a server its hooks, its init hooks and its password stay those that it had.
  pub Reachable-SameConfig :
      (σ σ' : System K T E) → Reachable σ σ' → SameConfig σ.server.inner σ'.server.inner
  Reachable-SameConfig σ _ start = (refl, refl, refl)
  Reachable-SameConfig σ _ (serve_request σ' r path) =
      SameConfig-trans σ.server.inner σ'.server.inner (start_request r σ'.server).1.inner
        (Reachable-SameConfig σ σ' path) (start_request-SameConfig r σ'.server)
  Reachable-SameConfig σ _ (finish_pending server tasks before pending after path) =
      SameConfig-trans σ.server.inner server.inner (finish_init pending server).1.inner
        (Reachable-SameConfig σ _ path) (finish_init-SameConfig pending server)
  Reachable-SameConfig σ _ (run_next_hook server inits before task after path) =
      SameConfig-trans σ.server.inner server.inner (run_hook task server.inner).0
        (Reachable-SameConfig σ _ path) (run_hook-SameConfig task server.inner)
