-- ===== src/Tests/Threads.antt =====
-- The threads of a server: the theorems at fixtures.
use syncstate.Prelude.{◌++◌, ℕ, List, [], ◌∷◌, panic, refl, true, lookup}
use syncstate.Event.{Event}
use syncstate.StateMap.Modify.{set}
use syncstate.Tcp.Hooks.{Hook, new_mutex}
use syncstate.Tcp.Server.{hash_discrete}
use syncstate.Tcp.Server.Coherence.{IsCoherent, start-IsCoherent, Reachable-IsCoherent}
use syncstate.Tcp.Server.Growth.{Grows}
use syncstate.Tcp.Server.HookLoop.{
  NoPanic, IsAt, hooked, thread, thread_steps, thread_runs_hooks, panic_ends_thread,
}
use syncstate.Tests.Fixtures.{
  nat_key, nat_value, identity_digest, nat_order, digest_of_two, written_twice, evaluated,
}
use syncstate.Tests.Server.{
  nat_entries, nat_event, stocked, idle, initialising, initialising-Reachable, refusing, writing,
}

Reachable-IsCoherent_example :
    IsCoherent initialising × Grows idle.server.inner initialising.server.inner
Reachable-IsCoherent_example =
    Reachable-IsCoherent idle initialising (start-IsCoherent (refusing ∷ []) [] [])
      initialising-Reachable

-- A hook that writes and then panics.
abbrev crashing : Hook ℕ ℕ ℕ
crashing = record {
  process_event = λ m evt. (panic, record { inner = (set 2 7 m.inner).1; poisoned = true });
}

abbrev seven : Event ℕ
seven = record { content = 7 }

-- The second hook writes, although the first returns an error.
abbrev two_hooks : List (Hook ℕ ℕ ℕ)
two_hooks = refusing ∷ writing ∷ []

two_hooks-NoPanic : NoPanic two_hooks seven (new_mutex written_twice)
unfolding evaluated new_mutex
two_hooks-NoPanic = (λ e. cc, (λ e. cc, tt))

thread_runs_hooks_example :
    IsAt digest_of_two []
      (new_mutex (set 1 7 written_twice).1)
      stocked
      (thread_steps 3 (thread digest_of_two seven two_hooks ∷ []) stocked)
unfolding hash_discrete lookup hooked new_mutex
thread_runs_hooks_example =
    thread_runs_hooks digest_of_two seven two_hooks (new_mutex written_twice) stocked refl
      two_hooks-NoPanic

panic_ends_thread_example :
    IsAt digest_of_two []
      (record { inner = (set 2 7 (set 1 7 written_twice).1).1; poisoned = true })
      stocked
      (thread_steps 3
        (thread digest_of_two seven (two_hooks ++ crashing ∷ refusing ∷ []) ∷ [])
        stocked)
unfolding hash_discrete lookup hooked new_mutex
panic_ends_thread_example =
    panic_ends_thread digest_of_two seven two_hooks crashing (refusing ∷ [])
      (new_mutex written_twice) stocked refl two_hooks-NoPanic refl
