-- ===== src/Tcp/Server/Preserved.antt =====
-- Predicates that every step of a server's threads preserves.
use syncstate.Prelude.{ℕ, suc, List, ◌∷◌, ◌++◌}
use syncstate.HashMap.{IterOrder}
use syncstate.Traits.{StateMapKey, StateMapValue}
use syncstate.Bincode.{Codec}
use syncstate.StateMap.Freeze.{Sha256}
use syncstate.Tcp.Hooks.{Mutex}
use syncstate.Tcp.Messages.{TcpStateServerRequest}
use syncstate.Tcp.Server.{TcpStateServer, Task}
use syncstate.Tcp.Server.Init.{PendingInit, finish_init}
use syncstate.Tcp.Server.Requests.{start_request}
use syncstate.Tcp.Server.Steps.{
  System, Reachable, start, serve_request, finish_pending, run_next_hook, begun_inits, run_hook,
}

-- A predicate on systems that every step of a system preserves, with the number of the hooks that were
-- run.
module _ {K T E : Type 0} ⦃key : StateMapKey K⦄ ⦃value : StateMapValue T⦄ ⦃sha : Sha256⦄
    ⦃order : IterOrder K T key.eq_dec⦄ ⦃entries : Codec (List (K × T))⦄ ⦃events : Codec E⦄ where
  pub record IsPreserved (P : ℕ → System K T E → Type 0) : Type 0 where
    pub serves :
        (n : ℕ) (σ : System K T E) (r : TcpStateServerRequest)
        → P n σ
        → P n (record {
          server = (start_request r σ.server).1;
          tasks = σ.tasks ++ (start_request r σ.server).2;
          inits = σ.inits ++ begun_inits (start_request r σ.server).0;
        })
    pub finishes :
        (n : ℕ) (server : Mutex (TcpStateServer K T E)) (tasks : List (Task K T E))
        (before : List (PendingInit K T)) (pending : PendingInit K T)
        (after : List (PendingInit K T))
        → P n (record { server = server; tasks = tasks; inits = before ++ pending ∷ after })
        → P n (record {
          server = (finish_init pending server).1;
          tasks = tasks;
          inits = before ++ after;
        })
    pub hooks :
        (n : ℕ) (server : Mutex (TcpStateServer K T E)) (inits : List (PendingInit K T))
        (before : List (Task K T E)) (task : Task K T E) (after : List (Task K T E))
        → P n (record { server = server; tasks = before ++ task ∷ after; inits = inits })
        → P (suc n) (record {
          server = record server { inner = (run_hook task server.inner).0 };
          tasks = before ++ ((run_hook task server.inner).1 ++ after);
          inits = inits;
        })

  pub Reachable-IsPreserved : (σ : System K T E) → IsPreserved (λ n. Reachable σ)
  Reachable-IsPreserved σ = record {
    serves = λ n σ' r path. serve_request σ' r path;
    finishes = λ n. finish_pending;
    hooks = λ n. run_next_hook;
  }

  -- How many hooks were run on the way.
  abbrev pub hook_steps : (σ σ' : System K T E) → Reachable σ σ' → ℕ
  hook_steps σ _ start = 0
  hook_steps σ _ (serve_request σ' r path) = hook_steps σ σ' path
  hook_steps σ _ (finish_pending server tasks l pending r path) = hook_steps σ _ path
  hook_steps σ _ (run_next_hook server inits l task r path) = suc (hook_steps σ _ path)

  pub preserved :
      (P : ℕ → System K T E → Type 0)
      → IsPreserved P
      → (σ σ' : System K T E) → P 0 σ
      → (path : Reachable σ σ') → P (hook_steps σ σ' path) σ'
  preserved P kept σ _ h start = h
  preserved P kept σ _ h (serve_request σ' r path) =
      kept.serves (hook_steps σ σ' path) σ' r (preserved P kept σ σ' h path)
  preserved P kept σ _ h (finish_pending server tasks l pending r path) =
      kept.finishes (hook_steps σ _ path) server tasks l pending r (preserved P kept σ _ h path)
  preserved P kept σ _ h (run_next_hook server inits l task r path) =
      kept.hooks (hook_steps σ _ path) server inits l task r (preserved P kept σ _ h path)
