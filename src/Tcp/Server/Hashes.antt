-- ===== src/Tcp/Server/Hashes.antt =====
-- Which hashes a server knows: those of its maps and those of the `Init`s that are under way.
use syncstate.Prelude.{
  ℕ, ◌+◌, ◌≤◌, ◌≡◌, false, some, none, Option, List, [], ◌∷◌, ◌++◌, append-nil, if_pos, if_neg,
  Outcome, ok, err, panic, inl, inr, ite, if◌then◌else◌, arith, Bool-cases, String,
}
use syncstate.HashMap.{
  HashMap, IterOrder, insert, remove, contains_key, lookup-insert, lookup-remove,
}
use syncstate.Bincode.{Codec}
use syncstate.Traits.{StateMapKey, StateMapValue}
use syncstate.StateMap.Defs.{Hash}
use syncstate.StateMap.Freeze.{Sha256}
use syncstate.Tcp.Hooks.{Mutex, ServerMap, new_mutex}
use syncstate.Tcp.Messages.{hash_mismatch}
use syncstate.Tcp.Server.{TcpStateServer, TcpStateServerError, hash_discrete}
use syncstate.Tcp.Server.Init.{
  PendingInit, begin_init, finish_init, after_build, after_hash, after_hooks, register,
  remove_processed, run_init_hooks, decode_and_build,
}
use syncstate.Tcp.Server.Steps.{begun_inits}

-- 1 for a hash that is a key, 0 for another one.
abbrev pub known : {V : Type 0} → Hash → HashMap Hash V → ℕ
known h m = if contains_key hash_discrete h m then 1 else 0

-- How many of the `Init`s under way are for a hash.
abbrev pub under_way : {K T : Type 0} → Hash → List (PendingInit K T) → ℕ
under_way h [] = 0
under_way h (p ∷ ps) = ite (hash_discrete h p.hash) 1 0 + under_way h ps

under_way-append :
    {K T : Type 0} (h : Hash) (ps qs : List (PendingInit K T))
    → under_way h (ps ++ qs) ≡ under_way h ps + under_way h qs
under_way-append h [] qs = omega arith
under_way-append h (p ∷ ps) qs = omega (arith, under_way-append h ps qs)

module _ {V : Type 0} where
  pub known-insert :
      (h k : Hash) (v : V) (m : HashMap Hash V)
      → known h (insert hash_discrete k v m) ≡ ite (hash_discrete h k) 1 (known h m)
  known-insert h k v m = ground (arith, lookup-insert hash_discrete h k v m)

  known-remove :
      (h k : Hash) (m : HashMap Hash V)
      → known h (remove hash_discrete k m) ≡ ite (hash_discrete h k) 0 (known h m)
  known-remove h k m = ground (arith, lookup-remove hash_discrete h k m)

module _ {K T E : Type 0} where
  -- The server and the `Init`s under way fit together: an `Init` is under way for a hash at most
  -- once, and only while the hash is marked as being processed and has no map.
  pub record IsConsistent (serv : TcpStateServer K T E) (inits : List (PendingInit K T))
      : Type 0 where
    pub unbound : (h : Hash) → under_way h inits + known h serv.statemaps ≤ 1
    pub marked : (h : Hash) → under_way h inits ≤ known h serv.processed_hashes

  pub begin_init-IsConsistent :
      (hash : Hash) (init_data : List ℕ) (serv : TcpStateServer K T E)
      (inits : List (PendingInit K T))
      → IsConsistent serv inits
      → IsConsistent
          (begin_init hash init_data serv).1
          (inits ++ begun_inits (begin_init hash init_data serv).0)
  unfolding begin_init
  begin_init-IsConsistent hash init_data serv inits c =
      elim (Bool-cases (contains_key hash_discrete hash serv.statemaps)) [
        | inl p ↦ rw (p, begin_init, append-nil) c
        | inr p ↦ elim (Bool-cases (contains_key hash_discrete hash serv.processed_hashes)) [
          | inl q ↦ rw (p, q, begin_init, append-nil) c
          | inr q ↦ rw (p, q, begin_init) (taken p q)
        ]
      ]
    where
      taken :
          contains_key hash_discrete hash serv.statemaps ≡ false
          → contains_key hash_discrete hash serv.processed_hashes ≡ false
          → IsConsistent
              (record serv {
                processed_hashes = insert hash_discrete hash tt serv.processed_hashes;
              })
              (inits
                ++ record { hash = hash; init_data = init_data; init_hooks = serv.init_hooks } ∷ [])
      taken p q = record {
        unbound = λ h. ground (
          arith,
          under_way-append h inits
              (record { hash = hash; init_data = init_data; init_hooks = serv.init_hooks } ∷ []),
          c.unbound h,
          c.marked h,
        );
        marked = λ h. ground (
          arith,
          under_way-append h inits
              (record { hash = hash; init_data = init_data; init_hooks = serv.init_hooks } ∷ []),
          known-insert h hash tt serv.processed_hashes,
          c.marked h,
        );
      }

  -- Once an `Init` is over, for the others.
  abbrev Leaves : Hash → TcpStateServer K T E → List (PendingInit K T) → Type 0
  Leaves hash serv inits =
      ((h : Hash) → ite (hash_discrete h hash) 1 0 + under_way h inits + known h serv.statemaps ≤ 1)
      × ((h : Hash)
          → ite (hash_discrete h hash) 1 0 + under_way h inits ≤ known h serv.processed_hashes)

  Leaves-IsConsistent :
      (hash : Hash) (serv : TcpStateServer K T E) (inits : List (PendingInit K T))
      → Leaves hash serv inits
      → IsConsistent serv inits
  Leaves-IsConsistent hash serv inits l = record {
    unbound = λ h. omega (arith, l.0 h);
    marked = λ h. omega (arith, l.1 h);
  }

  register-IsConsistent :
      (hash : Hash) (stmap : Mutex (ServerMap K T)) (server : Mutex (TcpStateServer K T E))
      (inits : List (PendingInit K T))
      → Leaves hash server.inner inits
      → IsConsistent (register hash stmap server).1.inner inits
  unfolding register
  register-IsConsistent hash stmap server inits l = elim (Bool-cases server.poisoned) [
    | inl p ↦ rw (p, register) (Leaves-IsConsistent hash server.inner inits l)
    | inr p ↦
        rw (p, register)
          (record {
            unbound = λ h. ground (arith, known-insert h hash stmap server.inner.statemaps, l.0 h);
            marked = λ h.
                ground (arith, known-remove h hash server.inner.processed_hashes, l.0 h, l.1 h);
          })
  ]

  remove_processed-IsConsistent :
      (hash : Hash) (server : Mutex (TcpStateServer K T E)) (inits : List (PendingInit K T))
      → Leaves hash server.inner inits
      → IsConsistent (remove_processed hash server).inner inits
  unfolding remove_processed
  remove_processed-IsConsistent hash server inits l = elim (Bool-cases server.poisoned) [
    | inl p ↦ rw (p, remove_processed) (Leaves-IsConsistent hash server.inner inits l)
    | inr p ↦
        rw (p, remove_processed)
          (record {
            unbound = λ h. omega (arith, l.0 h);
            marked = λ h.
                ground (arith, known-remove h hash server.inner.processed_hashes, l.0 h, l.1 h);
          })
  ]

  after_hooks-IsConsistent :
      (hash : Hash) (r : Outcome String (Unit {0}) × Mutex (ServerMap K T))
      (server : Mutex (TcpStateServer K T E)) (inits : List (PendingInit K T))
      → Leaves hash server.inner inits
      → IsConsistent (after_hooks hash r server).1.inner inits
  unfolding after_hooks
  after_hooks-IsConsistent hash (ok a, m) server inits l =
      register-IsConsistent hash m server inits l
  after_hooks-IsConsistent hash (err e, m) server inits l =
      remove_processed-IsConsistent hash server inits l
  after_hooks-IsConsistent hash (panic, m) server inits l =
      Leaves-IsConsistent hash server.inner inits l

  after_hash-IsConsistent :
      (p : PendingInit K T) (s : ServerMap K T) (d : Option Hash)
      (server : Mutex (TcpStateServer K T E)) (inits : List (PendingInit K T))
      → Leaves p.hash server.inner inits
      → IsConsistent (after_hash p s d server).1.inner inits
  unfolding after_hash
  after_hash-IsConsistent p s none server inits l = Leaves-IsConsistent p.hash server.inner inits l
  after_hash-IsConsistent p s (some d) server inits l =
      let done = after_hooks p.hash (run_init_hooks p.init_hooks (new_mutex s)) server in
      elim (hash_discrete d p.hash) [
        | yes e ↦ rw (if_pos (hash_discrete d p.hash) e done (ok hash_mismatch, server)) (
            after_hooks-IsConsistent p.hash (run_init_hooks p.init_hooks (new_mutex s)) server inits
              l)
        | no n ↦
            rw (if_neg (hash_discrete d p.hash) n done (ok hash_mismatch, server))
              (Leaves-IsConsistent p.hash server.inner inits l)
      ]

  after_build-IsConsistent :
      (p : PendingInit K T) (o : Outcome TcpStateServerError (ServerMap K T))
      (server : Mutex (TcpStateServer K T E)) (inits : List (PendingInit K T))
      → Leaves p.hash server.inner inits
      → IsConsistent (after_build p o server).1.inner inits
  unfolding after_build
  after_build-IsConsistent p (ok s) server inits l =
      after_hash-IsConsistent p s s.hash server inits l
  after_build-IsConsistent p (err e) server inits l =
      remove_processed-IsConsistent p.hash server inits l
  after_build-IsConsistent p panic server inits l = Leaves-IsConsistent p.hash server.inner inits l

  pub finish_init-IsConsistent :
      ⦃key : StateMapKey K⦄ ⦃value : StateMapValue T⦄ ⦃sha : Sha256⦄
      ⦃order : IterOrder K T key.eq_dec⦄ ⦃entries : Codec (List (K × T))⦄ (p : PendingInit K T)
      (server : Mutex (TcpStateServer K T E)) (before after : List (PendingInit K T))
      → IsConsistent server.inner (before ++ p ∷ after)
      → IsConsistent (finish_init p server).1.inner (before ++ after)
  unfolding finish_init
  finish_init-IsConsistent p server before after c =
      after_build-IsConsistent p (decode_and_build p.init_data) server (before ++ after) (
        λ h. omega (
          arith,
          c.unbound h,
          under_way-append h before (p ∷ after),
          under_way-append h before after,
        ),
        λ h. omega (
          arith,
          c.marked h,
          under_way-append h before (p ∷ after),
          under_way-append h before after,
        ),
      )
