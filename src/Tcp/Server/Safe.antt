-- ===== src/Tcp/Server/Safe.antt =====
-- What is asked of a server's state maps.
use syncstate.Prelude.{
  ℕ, ◌≡◌, sym, ◌∙◌, true, false, some, List, [], ◌∷◌, lookup, Outcome, ok, err, panic, Option-cases,
  inl, inr, subst, Bool-cases, ◌+◌, ◌-◌, ◌<◌, ◌≤◌, u64_mod, arith,
}
use syncstate.Bincode.{Codec}
use syncstate.HashMap.{IterOrder, insert, lookup-insert_self, lookup-insert_ne}
use syncstate.Traits.{StateMapKey}
use syncstate.Event.{Event}
use syncstate.Diff.{Diff}
use syncstate.StateMap.GetDiff.{get_diff}
use syncstate.StateMap.Defs.{Hash}
use syncstate.StateMap.History.{IsMaster}
use syncstate.Tcp.Hooks.{Mutex, ServerMap, Hook, InitHook}
use syncstate.Tcp.Server.{
  TcpStateServer, hash_discrete, handle_get_diff, answer_diff, lock_and_diff,
}

module _ {K T : Type 0} ⦃key : StateMapKey K⦄ where
  -- While its mutex is not poisoned, a stored map is a master, stands under its own hash, and has an
  -- update id of at most `b`.
  abbrev pub IsStored : Hash → ℕ → Mutex (ServerMap K T) → Type 0
  IsStored hash b m =
      m.poisoned ≡ false → IsMaster m.inner × (m.inner.hash ≡ some hash) × (m.inner.update_id ≤ b)

  -- Hooks that leave a stored map a stored map and raise its update id by at most `k`, as long as
  -- that stays below 2 ^ 64.
  abbrev pub Keep : {E : Type 0} → ℕ → List (Hook K T E) → Type 0
  Keep k [] = Unit
  Keep k (hook ∷ hooks) =
      ((hash : Hash) (b : ℕ) (m : Mutex (ServerMap K T)) (event : Event _)
        → IsStored hash b m
        → b + k < u64_mod
        → IsStored hash (b + k) (hook.process_event m event).1)
      × Keep k hooks

  -- The same for the hooks that run on a new map one after the other; together they raise its update
  -- id by at most `a`.
  abbrev pub KeepInit : ℕ → ℕ → List (InitHook K T) → Type 0
  KeepInit k a [] = Unit
  KeepInit k a (hook ∷ hooks) =
      ((hash : Hash) (b : ℕ) (m : Mutex (ServerMap K T))
        → IsStored hash b m
        → b + k < u64_mod
        → IsStored hash (b + k) (hook.process_init m).1)
      × (k ≤ a)
      × KeepInit k (a - k) hooks

  pub IsStored-mono :
      (hash : Hash) (b b' : ℕ) (m : Mutex (ServerMap K T))
      → b ≤ b'
      → IsStored hash b m
      → IsStored hash b' m
  IsStored-mono hash b b' m le h clear =
      let (is_master, named, low) = h clear in (is_master, named, omega arith)

module _ {K T E : Type 0} ⦃key : StateMapKey K⦄ where
  pub record IsServer (k a b : ℕ) (serv : TcpStateServer K T E) : Type 0 where
    pub stored :
        (hash : Hash) (m : Mutex (ServerMap K T))
        → lookup hash_discrete hash serv.statemaps ≡ some m
        → IsStored hash b m
    pub keep : Keep k serv.hooks
    pub keep_init : KeepInit k a serv.init_hooks

  pub IsServer-mono :
      (k a b b' : ℕ) (serv : TcpStateServer K T E)
      → b ≤ b'
      → IsServer k a b serv
      → IsServer k a b' serv
  IsServer-mono k a b b' serv le h = record {
    stored = λ hash m found. IsStored-mono hash b b' m le (h.stored hash m found);
    keep = h.keep;
    keep_init = h.keep_init;
  }

  -- Binding a hash to a map that may stand under it.
  pub insert-IsServer :
      (k a b : ℕ) (hash : Hash) (m : Mutex (ServerMap K T)) (serv : TcpStateServer K T E)
      → IsServer k a b serv
      → IsStored hash b m
      → IsServer k a b (record serv { statemaps = insert hash_discrete hash m serv.statemaps })
  insert-IsServer k a b hash m serv h stored = record {
    stored = λ hash' m' found. elim (hash_discrete hash' hash) [
      | yes p ↦
          let same : m ≡ m' =
            cc (p, found, lookup-insert_self hash_discrete hash m serv.statemaps) in
          subst (λ h'. IsStored h' b m') (sym p) (subst (IsStored hash b) same stored)
      | no n ↦
          h.stored hash' m'
            (sym (lookup-insert_ne hash_discrete hash' hash m serv.statemaps n) ∙ found)
    ];
    keep = h.keep;
    keep_init = h.keep_init;
  }

  -- The parts of a request under the first lock.
  module _ ⦃order : IterOrder K T key.eq_dec⦄ ⦃entries : Codec (List (K × T))⦄ where
    answer_diff-IsServer :
        (k a b : ℕ) (hash : Hash) (v : Mutex (ServerMap K T)) (d : Outcome ⊥ (Diff K T))
        (serv : TcpStateServer K T E)
        → IsServer k a b serv
        → IsServer k a b (answer_diff hash v d serv).1
    unfolding answer_diff
    answer_diff-IsServer k a b hash v (ok d) serv h = h
    answer_diff-IsServer k a b hash v (err e) serv h = absurd e
    answer_diff-IsServer k a b hash v panic serv h =
        insert-IsServer k a b hash (record v { poisoned = true }) serv h (λ p. absurd cc)

    pub handle_get_diff-IsServer :
        (k a b : ℕ) (hash : Hash) (from upto : ℕ) (serv : TcpStateServer K T E)
        → IsServer k a b serv
        → IsServer k a b (handle_get_diff hash from upto serv).1
    unfolding handle_get_diff lock_and_diff
    handle_get_diff-IsServer k a b hash from upto serv h =
        elim (Option-cases (lookup hash_discrete hash serv.statemaps)) [
          | inl gone ↦ rw (gone, handle_get_diff) h
          | inr (v, found) ↦
              rw (found, handle_get_diff)
                (elim (Bool-cases v.poisoned) [
                  | inl p ↦ rw (p, lock_and_diff) h
                  | inr p ↦
                      rw (p, lock_and_diff)
                        (answer_diff-IsServer k a b hash v (get_diff from upto v.inner) serv h)
                ])
        ]
