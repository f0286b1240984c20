-- ===== src/Tcp/Server/Growth.antt =====
-- How the maps of a server grow.
use syncstate.Prelude.{
  ℕ, ◌≤◌, some, none, Option, List, Outcome, ok, err, panic, inl, inr, if_pos, if_neg, arith,
  Bool-cases, String,
}
use syncstate.HashMap.{IterOrder, contains_key}
use syncstate.Bincode.{Codec}
use syncstate.Traits.{StateMapKey, StateMapValue}
use syncstate.StateMap.Defs.{Hash}
use syncstate.StateMap.Freeze.{Sha256}
use syncstate.Tcp.Hooks.{Mutex, ServerMap, new_mutex}
use syncstate.Tcp.Messages.{hash_mismatch}
use syncstate.Tcp.Server.{TcpStateServer, TcpStateServerError, hash_discrete}
use syncstate.Tcp.Server.Init.{
  PendingInit, begin_init, finish_init, after_build, after_hash, after_hooks, register,
  remove_processed, run_init_hooks, decode_and_build,
}
use syncstate.Tcp.Server.Hashes.{known, known-insert}

module _ {K T E : Type 0} where
  abbrev pub Grows : TcpStateServer K T E → TcpStateServer K T E → Type 0
  Grows serv serv' = (h : Hash) → known h serv.statemaps ≤ known h serv'.statemaps

  pub begin_init-Grows :
      (hash : Hash) (init_data : List ℕ) (serv : TcpStateServer K T E)
      → Grows serv (begin_init hash init_data serv).1
  unfolding begin_init
  begin_init-Grows hash init_data serv h =
      elim (Bool-cases (contains_key hash_discrete hash serv.statemaps)) [
        | inl p ↦ rw (p, begin_init) (omega arith)
        | inr p ↦ elim (Bool-cases (contains_key hash_discrete hash serv.processed_hashes)) [
          | inl q ↦ rw (p, q, begin_init) (omega arith)
          | inr q ↦ rw (p, q, begin_init) (omega arith)
        ]
      ]

  register-Grows :
      (hash : Hash) (m : Mutex (ServerMap K T)) (server : Mutex (TcpStateServer K T E))
      → Grows server.inner (register hash m server).1.inner
  unfolding register
  register-Grows hash m server h = elim (Bool-cases server.poisoned) [
    | inl p ↦ rw (p, register) (omega arith)
    | inr p ↦ rw (p, register) (ground (arith, known-insert h hash m server.inner.statemaps))
  ]

  remove_processed-Grows :
      (hash : Hash) (server : Mutex (TcpStateServer K T E))
      → Grows server.inner (remove_processed hash server).inner
  unfolding remove_processed
  remove_processed-Grows hash server h = elim (Bool-cases server.poisoned) [
    | inl p ↦ rw (p, remove_processed) (omega arith)
    | inr p ↦ rw (p, remove_processed) (omega arith)
  ]

  after_hooks-Grows :
      (hash : Hash) (r : Outcome String (Unit {0}) × Mutex (ServerMap K T))
      (server : Mutex (TcpStateServer K T E))
      → Grows server.inner (after_hooks hash r server).1.inner
  unfolding after_hooks
  after_hooks-Grows hash (ok a, m) server h = register-Grows hash m server h
  after_hooks-Grows hash (err e, m) server h = remove_processed-Grows hash server h
  after_hooks-Grows hash (panic, m) server h = omega arith

  after_hash-Grows :
      (p : PendingInit K T) (s : ServerMap K T) (d : Option Hash)
      (server : Mutex (TcpStateServer K T E))
      → Grows server.inner (after_hash p s d server).1.inner
  unfolding after_hash
  after_hash-Grows p s none server h = omega arith
  after_hash-Grows p s (some d) server h =
      let ran = run_init_hooks p.init_hooks (new_mutex s) in
      let done = after_hooks p.hash ran server in
      elim (hash_discrete d p.hash) [
        | yes e ↦
            rw (if_pos (hash_discrete d p.hash) e done (ok hash_mismatch, server))
              (after_hooks-Grows p.hash ran server h)
        | no n ↦
            rw (if_neg (hash_discrete d p.hash) n done (ok hash_mismatch, server)) (omega arith)
      ]

  after_build-Grows :
      (p : PendingInit K T) (o : Outcome TcpStateServerError (ServerMap K T))
      (server : Mutex (TcpStateServer K T E))
      → Grows server.inner (after_build p o server).1.inner
  unfolding after_build
  after_build-Grows p (ok s) server h = after_hash-Grows p s s.hash server h
  after_build-Grows p (err e) server h = remove_processed-Grows p.hash server h
  after_build-Grows p panic server h = omega arith

  pub finish_init-Grows :
      ⦃key : StateMapKey K⦄ ⦃value : StateMapValue T⦄ ⦃sha : Sha256⦄
      ⦃order : IterOrder K T key.eq_dec⦄ ⦃entries : Codec (List (K × T))⦄ (p : PendingInit K T)
      (server : Mutex (TcpStateServer K T E))
      → Grows server.inner (finish_init p server).1.inner
  unfolding finish_init
  finish_init-Grows p server = after_build-Grows p (decode_and_build p.init_data) server
