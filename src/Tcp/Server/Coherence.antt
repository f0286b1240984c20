-- ===== src/Tcp/Server/Coherence.antt =====
-- The hashes that a server knows, over every interleaving of its threads.
use syncstate.Prelude.{ℕ, ◌≤◌, List, [], ◌∷◌, lookup, arith}
use syncstate.HashMap.{HashMap, IterOrder}
use syncstate.Bincode.{Codec}
use syncstate.Traits.{StateMapKey, StateMapValue}
use syncstate.StateMap.Defs.{Hash}
use syncstate.StateMap.Freeze.{Sha256}
use syncstate.Tcp.Hooks.{Hook, InitHook, new_mutex}
use syncstate.Tcp.Server.{TcpStateServer, Task, from_tcp_listner, set_init_hooks}
use syncstate.Tcp.Server.Requests.{start_request}
use syncstate.Tcp.Server.SafeRequests.{Every, Every-append, Every-parts}
use syncstate.Tcp.Server.Init.{finish_init}
use syncstate.Tcp.Server.Steps.{
  run_hook, System, Reachable, start, serve_request, finish_pending, run_next_hook,
}
use syncstate.Tcp.Server.Growth.{Grows, finish_init-Grows}
use syncstate.Tcp.Server.Hashes.{known, IsConsistent, finish_init-IsConsistent}
use syncstate.Tcp.Server.HashRequests.{
  SameHashes-IsConsistent, run_hook-SameHashes, start_request-Served,
}
use syncstate.Tcp.Server.Held.{HasMap, Every-HasMap, run_hook-HasMap}

known_le : {V : Type 0} (h : Hash) (m : HashMap Hash V) → known h m ≤ 1
known_le h m = ground arith

module _ {K T E : Type 0} ⦃key : StateMapKey K⦄ ⦃value : StateMapValue T⦄ ⦃sha : Sha256⦄
    ⦃order : IterOrder K T key.eq_dec⦄ ⦃entries : Codec (List (K × T))⦄ ⦃events : Codec E⦄ where
  -- The hashes of a system fit together, and every thread holds a map that the server has.
  pub record IsCoherent (σ : System K T E) : Type 0 where
    pub consistent : IsConsistent σ.server.inner σ.inits
    pub held : Every (HasMap σ.server.inner) σ.tasks

  pub start-IsCoherent :
      (hooks : List (Hook K T E)) (init_hooks : List (InitHook K T)) (password : List ℕ)
      → IsCoherent (record {
        server = new_mutex (set_init_hooks init_hooks (from_tcp_listner hooks password));
        tasks = [];
        inits = [];
      })
  unfolding new_mutex set_init_hooks from_tcp_listner lookup
  start-IsCoherent hooks init_hooks password = record {
    consistent = record { unbound = λ h. omega arith; marked = λ h. omega arith };
    held = tt;
  }

  -- The threads of a server go on holding their maps.
  held-Grows :
      (serv serv' : TcpStateServer K T E) (tasks : List (Task K T E))
      → Grows serv serv'
      → Every (HasMap serv) tasks
      → Every (HasMap serv') tasks
  held-Grows serv serv' tasks grows held =
      Every-HasMap serv serv' grows (λ h. known_le h serv'.statemaps) tasks held

  -- Over every interleaving of a server's threads, starting from a coherent system: an `Init` is under
  -- way for a hash at most once, only while the hash is marked as being processed and while no map
  -- is bound to it, so that no `Init` ever replaces a map; every thread that runs hooks holds a map
  -- that the server has; and a hash that is bound stays bound.
  pub Reachable-IsCoherent :
      (σ σ' : System K T E)
      → IsCoherent σ
      → Reachable σ σ'
      → IsCoherent σ' × Grows σ.server.inner σ'.server.inner
  Reachable-IsCoherent σ _ c start = (c, λ h. omega arith)
  Reachable-IsCoherent σ _ c (serve_request σ' r path) =
      let (before, grown) = Reachable-IsCoherent σ σ' c path in
      let served = start_request-Served r σ'.server σ'.inits before.consistent in
      let after = (start_request r σ'.server).1.inner in
      (
        record {
          consistent = served.consistent;
          held =
              held-Grows σ'.server.inner after _ served.grows
                (Every-append (HasMap σ'.server.inner) σ'.tasks _ before.held served.spawned);
        },
        λ h. omega (arith, grown h, served.grows h),
      )
  Reachable-IsCoherent σ _ c (finish_pending server tasks l pending r path) =
      let (before, grown) = Reachable-IsCoherent σ _ c path in
      let grows = finish_init-Grows pending server in
      (
        record {
          consistent = finish_init-IsConsistent pending server l r before.consistent;
          held =
              held-Grows server.inner (finish_init pending server).1.inner tasks grows before.held;
        },
        λ h. omega (arith, grown h, grows h),
      )
  Reachable-IsCoherent σ _ c (run_next_hook server inits l task r path) =
      let (before, grown) = Reachable-IsCoherent σ _ c path in
      let same = run_hook-SameHashes task server.inner in
      let (left, right) = Every-parts (HasMap server.inner) l (task ∷ r) before.held in
      let held = Every-append (HasMap server.inner) l _ left (
        Every-append (HasMap server.inner) _ r (run_hook-HasMap task server.inner right.0)
          right.1) in
      (
        record {
          consistent = SameHashes-IsConsistent server.inner _ inits same before.consistent;
          held =
              held-Grows server.inner (run_hook task server.inner).0 _
                (λ h. omega (arith, same.0 h)) held;
        },
        λ h. omega (arith, grown h, same.0 h),
      )
