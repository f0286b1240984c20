-- ===== src/Tcp/Server/SafeInit.antt =====
-- What becomes of a server's state maps in an `Init`.
use syncstate.Prelude.{
  ℕ, ◌+◌, ◌-◌, ◌≤◌, ◌<◌, u64_mod, arith, String, ◌≡◌, refl, ap, ◌∙◌, some, Option, none, List, [],
  ◌∷◌, Outcome, ok, err, panic, if_pos, if_neg, inl, inr, Bool-cases, ◌⊎◌,
}
use syncstate.HashMap.{IterOrder, contains_key}
use syncstate.Bincode.{Codec}
use syncstate.Traits.{StateMapKey, StateMapValue}
use syncstate.StateMap.Defs.{Hash}
use syncstate.StateMap.Freeze.{Sha256}
use syncstate.StateMap.History.{IsMaster}
use syncstate.Tcp.Hooks.{Mutex, ServerMap, InitHook, new_mutex}
use syncstate.Tcp.Messages.{hash_mismatch}
use syncstate.Tcp.Server.{TcpStateServer, TcpStateServerError, hash_discrete}
use syncstate.Tcp.Server.Init.{
  PendingInit, begin_init, finish_init, after_build, after_hash, after_hooks, register,
  remove_processed, run_init_hooks, next_hook, decode_and_build,
}
use syncstate.Tcp.Server.Safe.{IsStored, IsStored-mono, KeepInit, IsServer, insert-IsServer}
use syncstate.Tcp.Server.Rebuild.{decode_and_build_lem}

module _ {K T : Type 0} ⦃key : StateMapKey K⦄ where
  next_hook-IsStored :
      (hash : Hash) (b c : ℕ) (r : Outcome String (Unit {0}) × Mutex (ServerMap K T))
      (rest : Mutex (ServerMap K T) → Outcome String (Unit {0}) × Mutex (ServerMap K T))
      → b ≤ c
      → ((m : Mutex (ServerMap K T)) → IsStored hash b m → IsStored hash c (rest m).1)
      → IsStored hash b r.1
      → IsStored hash c (next_hook r rest).1
  next_hook-IsStored hash b c (ok a, m) rest le keeps h = keeps m h
  next_hook-IsStored hash b c (err e, m) rest le keeps h = IsStored-mono hash b c m le h
  next_hook-IsStored hash b c (panic, m) rest le keeps h = IsStored-mono hash b c m le h

  run_init_hooks-IsStored :
      (k a b c : ℕ) (hash : Hash) (hooks : List (InitHook K T)) (m : Mutex (ServerMap K T))
      → b + a ≤ c
      → c < u64_mod
      → KeepInit k a hooks
      → IsStored hash b m
      → IsStored hash c (run_init_hooks hooks m).1
  unfolding run_init_hooks
  run_init_hooks-IsStored k a b c hash [] m le fits keep h =
      IsStored-mono hash b c m (omega arith) h
  run_init_hooks-IsStored k a b c hash (hook ∷ hooks) m le fits (keep, few, rest) h =
      next_hook-IsStored hash (b + k) c (hook.process_init m) (run_init_hooks hooks) (omega arith)
        (λ m'. run_init_hooks-IsStored k (a - k) (b + k) c hash hooks m' (omega arith) fits rest)
        (keep hash b m h (omega arith))

  -- What the pending part of an `Init` took along.
  abbrev pub IsPending : {A : Type 0} → ℕ → ℕ → A ⊎ PendingInit K T → Type 0
  IsPending k a (inl answer) = Unit
  IsPending k a (inr pending) = KeepInit k a pending.init_hooks

module _ {K T E : Type 0} ⦃key : StateMapKey K⦄ where
  pub begin_init-IsServer :
      (k a b : ℕ) (hash : Hash) (init_data : List ℕ) (serv : TcpStateServer K T E)
      → IsServer k a b serv
      → IsServer k a b (begin_init hash init_data serv).1
        × IsPending k a (begin_init hash init_data serv).0
  unfolding begin_init
  begin_init-IsServer k a b hash init_data serv h =
      elim (Bool-cases (contains_key hash_discrete hash serv.statemaps)) [
        | inl p ↦ rw (p, begin_init) (h, tt)
        | inr p ↦ elim (Bool-cases (contains_key hash_discrete hash serv.processed_hashes)) [
          | inl q ↦ rw (p, q, begin_init) (h, tt)
          | inr q ↦
              rw (p, q, begin_init)
                (record { stored = h.stored; keep = h.keep; keep_init = h.keep_init }, h.keep_init)
        ]
      ]

  remove_processed-IsServer :
      (k a b : ℕ) (hash : Hash) (server : Mutex (TcpStateServer K T E))
      → IsServer k a b server.inner
      → IsServer k a b (remove_processed hash server).inner
  unfolding remove_processed
  remove_processed-IsServer k a b hash server h = elim (Bool-cases server.poisoned) [
    | inl p ↦ rw (p, remove_processed) h
    | inr p ↦
        rw (p, remove_processed)
          (record { stored = h.stored; keep = h.keep; keep_init = h.keep_init })
  ]

  after_hooks-IsServer :
      (k a b : ℕ) (hash : Hash) (r : Outcome String (Unit {0}) × Mutex (ServerMap K T))
      (server : Mutex (TcpStateServer K T E))
      → IsStored hash b r.1
      → IsServer k a b server.inner
      → IsServer k a b (after_hooks hash r server).1.inner
  unfolding after_hooks register
  after_hooks-IsServer k a b hash (ok done, m) server stored h = elim (Bool-cases server.poisoned) [
    | inl p ↦ rw (p, register) h
    | inr p ↦
        rw (p, register)
          (let bound = insert-IsServer k a b hash m server.inner h stored in
            record { stored = bound.stored; keep = h.keep; keep_init = h.keep_init })
  ]
  after_hooks-IsServer k a b hash (err e, m) server stored h =
      remove_processed-IsServer k a b hash server h
  after_hooks-IsServer k a b hash (panic, m) server stored h = h

  after_hash-IsServer :
      (k a b : ℕ) (p : PendingInit K T) (s : ServerMap K T) (d : Option Hash)
      (server : Mutex (TcpStateServer K T E))
      → IsMaster s
      → s.update_id ≡ 0
      → s.hash ≡ d
      → a ≤ b
      → b < u64_mod
      → KeepInit k a p.init_hooks
      → IsServer k a b server.inner
      → IsServer k a b (after_hash p s d server).1.inner
  unfolding after_hash new_mutex
  after_hash-IsServer k a b p s none server built new found low fits keep h = h
  after_hash-IsServer k a b p s (some d) server built new found low fits keep h =
      let ran = run_init_hooks p.init_hooks (new_mutex s) in
      let done = after_hooks p.hash ran server in
      elim (hash_discrete d p.hash) [
        | yes e ↦ rw (if_pos (hash_discrete d p.hash) e done (ok hash_mismatch, server)) (
            after_hooks-IsServer k a b p.hash ran server
              (run_init_hooks-IsStored k a 0 b p.hash p.init_hooks (new_mutex s) (omega arith) fits
                keep (λ sound. (built, found ∙ ap some e, omega arith)))
              h)
        | no n ↦ rw (if_neg (hash_discrete d p.hash) n done (ok hash_mismatch, server)) h
      ]

  after_build-IsServer :
      (k a b : ℕ) (p : PendingInit K T) (o : Outcome TcpStateServerError (ServerMap K T))
      (server : Mutex (TcpStateServer K T E))
      → ((s : ServerMap K T) → o ≡ ok s → IsMaster s × (s.update_id ≡ 0))
      → a ≤ b
      → b < u64_mod
      → KeepInit k a p.init_hooks
      → IsServer k a b server.inner
      → IsServer k a b (after_build p o server).1.inner
  unfolding after_build
  after_build-IsServer k a b p (ok s) server built low fits keep h =
      after_hash-IsServer k a b p s s.hash server (built s refl).0 (built s refl).1 refl low fits
        keep h
  after_build-IsServer k a b p (err e) server built low fits keep h =
      remove_processed-IsServer k a b p.hash server h
  after_build-IsServer k a b p panic server built low fits keep h = h

  pub finish_init-IsServer :
      (k a b : ℕ) ⦃value : StateMapValue T⦄ ⦃sha : Sha256⦄ ⦃order : IterOrder K T key.eq_dec⦄
      ⦃entries : Codec (List (K × T))⦄ (p : PendingInit K T) (server : Mutex (TcpStateServer K T E))
      → a ≤ b
      → b < u64_mod
      → KeepInit k a p.init_hooks
      → IsServer k a b server.inner
      → IsServer k a b (finish_init p server).1.inner
  unfolding finish_init
  finish_init-IsServer k a b p server low fits keep h =
      after_build-IsServer k a b p (decode_and_build p.init_data) server
        (λ s e.
          let (l, decoded, built) = decode_and_build_lem p.init_data s e in
          (built.is_master, built.starts))
        low fits keep h
