-- ===== src/Tcp/Server/SafeSteps.antt =====
-- What becomes of a server's state maps over every interleaving of its threads.
use syncstate.Prelude.{
  ℕ, ◌+◌, ◌*◌, ◌≤◌, ◌<◌, u64_mod, arith, subst, List, [], ◌∷◌, ◌++◌, lookup, inl, inr, ◌⊎◌,
}
use syncstate.HashMap.{IterOrder}
use syncstate.Bincode.{Codec}
use syncstate.Traits.{StateMapKey, StateMapValue}
use syncstate.StateMap.Freeze.{Sha256}
use syncstate.Tcp.Hooks.{Hook, InitHook, Mutex, new_mutex}
use syncstate.Tcp.Messages.{TcpStateServerRequest}
use syncstate.Tcp.Server.{TcpStateServer, Task, from_tcp_listner, set_init_hooks}
use syncstate.Tcp.Server.Init.{PendingInit, finish_init}
use syncstate.Tcp.Server.Requests.{start_request}
use syncstate.Tcp.Server.Preserved.{IsPreserved, hook_steps, preserved}
use syncstate.Tcp.Server.Safe.{Keep, KeepInit, IsServer}
use syncstate.Tcp.Server.SafeInit.{IsPending, finish_init-IsServer}
use syncstate.Tcp.Server.Steps.{System, Reachable, begun_inits, run_hook}
use syncstate.Tcp.Server.SafeRequests.{
  Every, Every-append, Every-parts, KeepTask, start_request-IsServer, run_hook-IsServer,
}

module _ {K T : Type 0} ⦃key : StateMapKey K⦄ (k a : ℕ) where
  begun_inits-Every :
      {A : Type 0} (begun : A ⊎ PendingInit K T)
      → IsPending k a begun
      → Every (λ p. KeepInit k a p.init_hooks) (begun_inits begun)
  begun_inits-Every (inl answer) h = tt
  begun_inits-Every (inr pending) h = (h, tt)

module _ {K T E : Type 0} ⦃key : StateMapKey K⦄ ⦃value : StateMapValue T⦄ ⦃sha : Sha256⦄
    ⦃order : IterOrder K T key.eq_dec⦄ ⦃entries : Codec (List (K × T))⦄ ⦃events : Codec E⦄ where
  -- The server's maps are masters under their hashes, with update ids of at most `b`, and no hook of
  -- any thread spoils one.
  pub record IsSafe (k a b : ℕ) (σ : System K T E) : Type 0 where
    pub safe : IsServer k a b σ.server.inner
    pub tasks_keep : Every (KeepTask k) σ.tasks
    pub inits_keep : Every (λ p. KeepInit k a p.init_hooks) σ.inits
    pub room : a ≤ b

  pub start-IsSafe :
      (k a : ℕ) (hooks : List (Hook K T E)) (init_hooks : List (InitHook K T)) (password : List ℕ)
      → Keep k hooks
      → KeepInit k a init_hooks
      → IsSafe k a a (record {
        server = new_mutex (set_init_hooks init_hooks (from_tcp_listner hooks password));
        tasks = [];
        inits = [];
      })
  unfolding new_mutex set_init_hooks from_tcp_listner lookup
  start-IsSafe k a hooks init_hooks password keep keep_init = record {
    safe = record { stored = λ hash m found. absurd cc; keep = keep; keep_init = keep_init };
    tasks_keep = tt;
    inits_keep = tt;
    room = omega arith;
  }

  -- One step of each kind.
  serve-IsSafe :
      (k a b : ℕ) (σ : System K T E) (r : TcpStateServerRequest)
      → IsSafe k a b σ
      → IsSafe k a b (record {
        server = (start_request r σ.server).1;
        tasks = σ.tasks ++ (start_request r σ.server).2;
        inits = σ.inits ++ begun_inits (start_request r σ.server).0;
      })
  serve-IsSafe k a b σ r before =
      let (safe, spawned, begun) = start_request-IsServer k a b r σ.server before.safe in
      record {
        safe = safe;
        tasks_keep = Every-append (KeepTask k) σ.tasks _ before.tasks_keep spawned;
        inits_keep =
            Every-append _ σ.inits _ before.inits_keep
              (begun_inits-Every k a (start_request r σ.server).0 begun);
        room = before.room;
      }

  finish-IsSafe :
      (k a b : ℕ) (server : Mutex (TcpStateServer K T E)) (tasks : List (Task K T E))
      (l : List (PendingInit K T)) (pending : PendingInit K T) (r : List (PendingInit K T))
      → b < u64_mod
      → IsSafe k a b (record { server = server; tasks = tasks; inits = l ++ pending ∷ r })
      → IsSafe k a b
          (record { server = (finish_init pending server).1; tasks = tasks; inits = l ++ r })
  finish-IsSafe k a b server tasks l pending r fits before =
      let (left, right) = Every-parts _ l (pending ∷ r) before.inits_keep in
      record {
        safe = finish_init-IsServer k a b pending server before.room fits right.0 before.safe;
        tasks_keep = before.tasks_keep;
        inits_keep = Every-append _ l r left right.1;
        room = before.room;
      }

  hook-IsSafe :
      (k a b : ℕ) (server : Mutex (TcpStateServer K T E)) (inits : List (PendingInit K T))
      (l : List (Task K T E)) (task : Task K T E) (r : List (Task K T E))
      → b + k < u64_mod
      → IsSafe k a b (record { server = server; tasks = l ++ task ∷ r; inits = inits })
      → IsSafe k a (b + k) (record {
        server = record server { inner = (run_hook task server.inner).0 };
        tasks = l ++ ((run_hook task server.inner).1 ++ r);
        inits = inits;
      })
  hook-IsSafe k a b server inits l task r fits before =
      let (left, right) = Every-parts (KeepTask k) l (task ∷ r) before.tasks_keep in
      let (safe, next) = run_hook-IsServer k a b task server.inner right.0 fits before.safe in
      let low : a ≤ b = before.room in
      record {
        safe = safe;
        tasks_keep =
            Every-append (KeepTask k) l _ left (Every-append (KeepTask k) _ r next right.1);
        inits_keep = before.inits_keep;
        room = omega arith;
      }

  pub IsSafe-IsPreserved :
      (k a b : ℕ) → IsPreserved (λ n σ. b + n * k < u64_mod → IsSafe k a (b + n * k) σ)
  IsSafe-IsPreserved k a b = record {
    serves = λ n σ r before fits. serve-IsSafe k a (b + n * k) σ r (before fits);
    finishes = λ n server tasks l pending r before fits.
        finish-IsSafe k a (b + n * k) server tasks l pending r fits (before fits);
    hooks = λ n server inits l task r before fits.
        subst
          (λ top. IsSafe k a top (record {
            server = record server { inner = (run_hook task server.inner).0 };
            tasks = l ++ ((run_hook task server.inner).1 ++ r);
            inits = inits;
          }))
          (omega arith)
          (hook-IsSafe k a (b + n * k) server inits l task r (omega arith) (before (omega arith)));
  }

  -- Each hook of a server and of its threads, run on a master that stands under its own hash,
  -- leaves it such a map and raises its update id by at most `k`, as long as that stays below 2 ^
  -- 64, and does not clear the poison of a mutex; so does each hook that runs in an `Init`, and
  -- these together raise it by at most `a`. The server starts with maps of that kind that have
  -- update ids of at most `b`, which is at least `a`, and takes any interleaving of requests, of
  -- the second parts of `Init`s and of hooks, with so few hook runs that `b` and `k` for each of
  -- them stay below 2 ^ 64. Then each map of the server whose mutex is not poisoned is again a
  -- master with a history without gaps, stands under its own hash, and has an update id of at most
  -- `b` and `k` for each hook run.
  pub Reachable-IsSafe :
      (k a b : ℕ) (σ σ' : System K T E)
      → IsSafe k a b σ
      → (path : Reachable σ σ') → b + hook_steps σ σ' path * k < u64_mod
      → IsSafe k a (b + hook_steps σ σ' path * k) σ'
  Reachable-IsSafe k a b σ σ' h path fits =
      preserved (λ n σ''. b + n * k < u64_mod → IsSafe k a (b + n * k) σ'')
        (IsSafe-IsPreserved k a b) σ σ' (λ small. subst (λ top. IsSafe k a top σ) (omega arith) h)
        path fits
