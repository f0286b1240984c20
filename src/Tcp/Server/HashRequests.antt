-- ===== src/Tcp/Server/HashRequests.antt =====
-- What requests and hooks do to the hashes that a server knows.
use syncstate.Prelude.{
  ℕ, ◌≡◌, refl, true, some, none, Option, List, [], ◌∷◌, ◌++◌, append-nil, lookup, Outcome, ok, err,
  panic, inl, inr, ◌⊎◌, arith, Option-cases, Bool-cases,
}
use syncstate.HashMap.{IterOrder, insert}
use syncstate.Bincode.{Codec}
use syncstate.Traits.{StateMapKey, StateMapValue}
use syncstate.StateMap.Defs.{Hash}
use syncstate.StateMap.Freeze.{Sha256}
use syncstate.Diff.{Diff}
use syncstate.StateMap.GetDiff
use syncstate.Tcp.Hooks.{Mutex, Hook, ServerMap, new_mutex}
use syncstate.Tcp.Messages.{
  TcpStateServerRequest, TcpStateServerResponse, get_update_id, event, get_diff, init,
}
use syncstate.Tcp.Server.{
  TcpStateServer, TcpStateServerError, Task, hash_discrete, handle_get_update_id, handle_event,
  handle_get_diff, lock_and_diff, answer_diff,
}
use syncstate.Tcp.Server.Init.{PendingInit, begin_init}
use syncstate.Tcp.Server.Requests.{start_request, process_locked, poisons, init_begun}
use syncstate.Tcp.Server.SafeRequests.{Every}
use syncstate.Tcp.Server.Steps.{begun_inits, run_hook, run_on}
use syncstate.Tcp.Server.Growth.{Grows, begin_init-Grows}
use syncstate.Tcp.Server.Hashes.{known, known-insert, IsConsistent, begin_init-IsConsistent}
use syncstate.Tcp.Server.Held.{HasMap, handle_event-HasMap}

module _ {K T E : Type 0} where
  -- What requests other than `Init`, and hooks, do to the hashes.
  abbrev pub SameHashes : TcpStateServer K T E → TcpStateServer K T E → Type 0
  SameHashes serv serv' =
      ((h : Hash) → known h serv'.statemaps ≡ known h serv.statemaps)
      × ((h : Hash) → known h serv'.processed_hashes ≡ known h serv.processed_hashes)

  pub SameHashes-IsConsistent :
      (serv serv' : TcpStateServer K T E) (inits : List (PendingInit K T))
      → SameHashes serv serv'
      → IsConsistent serv inits
      → IsConsistent serv' inits
  SameHashes-IsConsistent serv serv' inits s c = record {
    unbound = λ h. omega (arith, s.0 h, c.unbound h);
    marked = λ h. omega (arith, s.1 h, c.marked h);
  }

  -- A map that is bound is bound again.
  insert-SameHashes :
      (hash : Hash) (v v' : Mutex (ServerMap K T)) (serv : TcpStateServer K T E)
      → lookup hash_discrete hash serv.statemaps ≡ some v
      → SameHashes serv (record serv { statemaps = insert hash_discrete hash v' serv.statemaps })
  insert-SameHashes hash v v' serv found =
      (λ h. ground (arith, known-insert h hash v' serv.statemaps), λ h. refl)

  run_on-SameHashes :
      (task : Task K T E) (hooks : List (Hook K T E)) (v : Option (Mutex (ServerMap K T)))
      (serv : TcpStateServer K T E)
      → lookup hash_discrete task.statemap serv.statemaps ≡ v
      → SameHashes serv (run_on task hooks v serv).0
  unfolding run_on
  run_on-SameHashes task [] v serv found = (λ h. refl, λ h. refl)
  run_on-SameHashes task (hook ∷ hooks) none serv found = (λ h. refl, λ h. refl)
  run_on-SameHashes task (hook ∷ hooks) (some v) serv found =
      insert-SameHashes task.statemap v (hook.process_event v task.event).1 serv found

  pub run_hook-SameHashes :
      (task : Task K T E) (serv : TcpStateServer K T E) → SameHashes serv (run_hook task serv).0
  unfolding run_hook
  run_hook-SameHashes task serv = run_on-SameHashes task task.hooks _ serv refl

  poisons-SameHashes :
      (o : Outcome TcpStateServerError TcpStateServerResponse) (serv serv' : TcpStateServer K T E)
      → SameHashes serv serv'
      → SameHashes serv (poisons o serv').inner
  unfolding poisons new_mutex
  poisons-SameHashes (ok a) serv serv' h = h
  poisons-SameHashes (err e) serv serv' h = h
  poisons-SameHashes panic serv serv' h = h

module _ {K T E : Type 0} ⦃key : StateMapKey K⦄ ⦃order : IterOrder K T key.eq_dec⦄
    ⦃entries : Codec (List (K × T))⦄ where
  answer_diff-SameHashes :
      (hash : Hash) (v : Mutex (ServerMap K T)) (d : Outcome ⊥ (Diff K T))
      (serv : TcpStateServer K T E)
      → lookup hash_discrete hash serv.statemaps ≡ some v
      → SameHashes serv (answer_diff hash v d serv).1
  unfolding answer_diff
  answer_diff-SameHashes hash v (ok d) serv found = (λ h. refl, λ h. refl)
  answer_diff-SameHashes hash v (err e) serv found = absurd e
  answer_diff-SameHashes hash v panic serv found =
      insert-SameHashes hash v (record v { poisoned = true }) serv found

  handle_get_diff-SameHashes :
      (hash : Hash) (f u : ℕ) (serv : TcpStateServer K T E)
      → SameHashes serv (handle_get_diff hash f u serv).1
  unfolding handle_get_diff lock_and_diff
  handle_get_diff-SameHashes hash f u serv =
      elim (Option-cases (lookup hash_discrete hash serv.statemaps)) [
        | inl gone ↦ rw (gone, handle_get_diff) (λ h. refl, λ h. refl)
        | inr (v, found) ↦
            rw (found, handle_get_diff)
              (elim (Bool-cases v.poisoned) [
                | inl p ↦ rw (p, lock_and_diff) (λ h. refl, λ h. refl)
                | inr p ↦
                    rw (p, lock_and_diff)
                      (answer_diff-SameHashes hash v (GetDiff.get_diff f u v.inner) serv found)
              ])
      ]

module _ {K T E : Type 0} ⦃key : StateMapKey K⦄ ⦃value : StateMapValue T⦄ ⦃sha : Sha256⦄
    ⦃order : IterOrder K T key.eq_dec⦄ ⦃entries : Codec (List (K × T))⦄ ⦃events : Codec E⦄ where
  -- What the first lock of a request leaves: `inits` are those that were under way.
  pub record Served (serv : TcpStateServer K T E) (inits : List (PendingInit K T))
      (x : (Outcome TcpStateServerError TcpStateServerResponse ⊎ PendingInit K T)
        × Mutex (TcpStateServer K T E)
        × List (Task K T E))
      : Type 0 where
    pub consistent : IsConsistent x.1.inner (inits ++ begun_inits x.0)
    pub grows : Grows serv x.1.inner
    pub spawned : Every (HasMap serv) x.2

  begun_inits-init_begun :
      (b : (TcpStateServerResponse ⊎ PendingInit K T) × TcpStateServer K T E)
      → ((init_begun b).1.inner ≡ b.1)
        × (begun_inits (init_begun b).0 ≡ begun_inits b.0)
        × ((init_begun b).2 ≡ [])
  unfolding init_begun new_mutex
  begun_inits-init_begun (inl answer, serv) = (refl, refl, refl)
  begun_inits-init_begun (inr pending, serv) = (refl, refl, refl)

  process_locked-Served :
      (r : TcpStateServerRequest) (serv : TcpStateServer K T E) (inits : List (PendingInit K T))
      → IsConsistent serv inits
      → Served serv inits (process_locked r serv)
  unfolding process_locked
  process_locked-Served (get_update_id hash) serv inits c =
      let same =
        poisons-SameHashes (handle_get_update_id hash serv) serv serv (λ h. refl, λ h. refl) in
      record {
        consistent = rw append-nil (SameHashes-IsConsistent serv _ inits same c);
        grows = λ h. omega (arith, same.0 h);
        spawned = tt;
      }
  process_locked-Served (event hash evt_data) serv inits c =
      let same =
        poisons-SameHashes (handle_event hash evt_data serv).0 serv serv (λ h. refl, λ h. refl) in
      record {
        consistent = rw append-nil (SameHashes-IsConsistent serv _ inits same c);
        grows = λ h. omega (arith, same.0 h);
        spawned = handle_event-HasMap hash evt_data serv;
      }
  process_locked-Served (get_diff hash f u) serv inits c =
      let (answer, serv') = handle_get_diff hash f u serv in
      let same = poisons-SameHashes answer serv serv' (handle_get_diff-SameHashes hash f u serv) in
      record {
        consistent = rw append-nil (SameHashes-IsConsistent serv _ inits same c);
        grows = λ h. omega (arith, same.0 h);
        spawned = tt;
      }
  process_locked-Served (init hash init_data) serv inits c =
      let b = begin_init hash init_data serv in
      let (left, pending, none_spawned) = begun_inits-init_begun b in
      record {
        consistent = rw (left, pending) (begin_init-IsConsistent hash init_data serv inits c);
        grows = rw left (begin_init-Grows hash init_data serv);
        spawned = rw none_spawned tt;
      }

  pub start_request-Served :
      (r : TcpStateServerRequest) (server : Mutex (TcpStateServer K T E))
      (inits : List (PendingInit K T))
      → IsConsistent server.inner inits
      → Served server.inner inits (start_request r server)
  unfolding start_request
  start_request-Served r server inits c = elim (Bool-cases server.poisoned) [
    | inl p ↦
        rw (p, start_request)
          (record { consistent = rw append-nil c; grows = λ h. omega arith; spawned = tt })
    | inr p ↦ rw (p, start_request) (process_locked-Served r server.inner inits c)
  ]
