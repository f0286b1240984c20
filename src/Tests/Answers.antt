-- ===== src/Tests/Answers.antt =====
-- A server that is asked for a diff while it serves other connections: a run at the fixtures.
use syncstate.Prelude.{
  ℕ, zero, suc, List, ◌≡◌, refl, [], ◌∷◌, ◌++◌, arith, lookup, some, false, from_be_bytes,
}
use syncstate.StateMap.Build.{push_all}
use syncstate.StateMap.Sync.{SameContents}
use syncstate.StateMap.History.{snapshot}
use syncstate.StateMap.Modify.{set}
use syncstate.Tcp.Hooks.{ServerMap, Mutex, new_mutex}
use syncstate.Tcp.Messages.{get_diff}
use syncstate.Tcp.Server.{
  TcpStateServer, Task, handle_event, spawn_hooks, hash_discrete, from_tcp_listner, set_init_hooks,
}
use syncstate.Tcp.Server.Connections.{
  connection, Connection, Listening, Serves, accept, turn, hook_runs, asking, advance, step,
  compare_password,
}
use syncstate.Event.{deserialize}
use syncstate.Tcp.Server.Steps.{run_hook}
use syncstate.Tcp.Server.Connections.Answers.{IsAnswered, get_diff-IsAnswered}
use syncstate.Tcp.Server.Init.{begin_init, finish_init, run_init_hooks}
use syncstate.Tcp.Server.Listening.{set_up}
use syncstate.Tcp.Server.Requests.{start_request, process_locked, init_begun}
use syncstate.Tcp.Server.Stream.{read_stream}
use syncstate.Tcp.Wire.{Wire, wire, read_wire, write_wire}
use syncstate.Tests.Codecs.{request_bytes, response_bytes}
use syncstate.Tests.Fixtures.{
  nat_key, nat_value, identity_digest, nat_order, digest_of_two, evaluated, master,
}
use syncstate.Tests.Server.{
  nat_entries, nat_event, init_bytes, two_entries, flatten, writing, opening, writing-Keep,
  opening-KeepInit,
}

-- An `Init` as it comes in: its length, an empty password, and the request.
abbrev init_sent : Wire
init_sent = (0 ∷ 0 ∷ 0 ∷ 44 ∷ 0 ∷ 1 ∷ 1 ∷ 36 ∷ digest_of_two ++ init_bytes, [])

abbrev get_diff_sent : Wire
get_diff_sent = (0 ∷ 0 ∷ 0 ∷ 41 ∷ 0 ∷ 1 ∷ 0 ∷ 1 ∷ 9 ∷ digest_of_two, [])

abbrev event_sent : Wire
event_sent = (0 ∷ 0 ∷ 0 ∷ 41 ∷ 0 ∷ 0 ∷ 1 ∷ 36 ∷ digest_of_two ++ 7 ∷ [], [])

abbrev NatListening : Type 0
NatListening = Listening ℕ ℕ ℕ Wire

abbrev first : Mutex (TcpStateServer ℕ ℕ ℕ)
first = new_mutex (set_up (writing ∷ []) (opening ∷ []) [])

abbrev nobody : NatListening
nobody = record { server = first; tasks = []; connections = [] }

-- The thread of the first connection takes a step and goes to the end.
abbrev turned : Connection ℕ ℕ Wire → List (Connection ℕ ℕ Wire) → NatListening → NatListening
turned c cs ν = record {
  server = (advance c ν.server).1;
  tasks = ν.tasks ++ (advance c ν.server).2;
  connections = cs ++ (advance c ν.server).0 ∷ [];
}

abbrev next_turn : List (Connection ℕ ℕ Wire) → NatListening → NatListening
next_turn [] ν = ν
next_turn (c ∷ cs) ν = turned c cs ν

abbrev turns : ℕ → NatListening → NatListening
turns zero ν = ν
turns (suc n) ν = turns n (next_turn ν.connections ν)

abbrev Run : NatListening → Type 0
Run ν = Serves (λ stream. Unit {0}) nobody ν

abbrev next_turn-Run :
    (cs : List (Connection ℕ ℕ Wire)) (ν : NatListening)
    → Run (record ν { connections = cs })
    → Run (next_turn cs (record ν { connections = cs }))
next_turn-Run [] ν run = run
next_turn-Run (c ∷ cs) ν run = turn ν.server ν.tasks [] c cs run

abbrev turns-Run : (n : ℕ) (ν : NatListening) → Run ν → Run (turns n ν)
turns-Run zero ν run = run
turns-Run (suc n) ν run =
    turns-Run n (next_turn ν.connections ν) (next_turn-Run ν.connections ν run)

abbrev joined : Wire → NatListening → NatListening
joined w ν = record ν { connections = ν.connections ++ connection (wire 100) w ∷ [] }

-- The map is stored, with what the init hook wrote; then an event comes in.
abbrev told : NatListening
told = turns 6 (joined event_sent (turns 4 (joined init_sent nobody)))

abbrev told-Run : Run told
told-Run = turns-Run 6 (joined event_sent (turns 4 (joined init_sent nobody))) (
    accept (turns 4 (joined init_sent nobody)) (wire 100) event_sent tt
      (turns-Run 4 (joined init_sent nobody) (accept nobody (wire 100) init_sent tt Serves.idle)))

unfoldable runs : Unit {0}
unfolding evaluated new_mutex from_tcp_listner set_init_hooks push_all run_init_hooks advance step
    read_stream start_request process_locked init_begun begin_init finish_init hash_discrete
    from_be_bytes wire read_wire write_wire compare_password handle_event spawn_hooks deserialize
    run_hook
runs = tt

-- The hook of the event.
abbrev seven : Task ℕ ℕ ℕ
seven = record { statemap = digest_of_two; event = record { content = 7 }; hooks = writing ∷ [] }

abbrev hooked : NatListening
hooked = record {
  server = record told.server { inner = (run_hook seven told.server.inner).0 };
  tasks = [] ++ ((run_hook seven told.server.inner).1 ++ []);
  connections = told.connections;
}

unfoldable hooked-Run : Run hooked
unfolding runs
hooked-Run = hook_runs told.server told.connections [] seven [] told-Run

-- Then a client asks for the changes from update id 1 on.
abbrev asked : NatListening
asked = turns 6 (joined get_diff_sent hooked)

unfoldable asked-Run : Run asked
unfolding hooked-Run
asked-Run =
    turns-Run 6 (joined get_diff_sent hooked) (accept hooked (wire 100) get_diff_sent tt hooked-Run)

abbrev third : List (Connection ℕ ℕ Wire) → Connection ℕ ℕ Wire
third (a ∷ b ∷ c ∷ l) = c
third l = connection (wire 100) init_sent

abbrev first_two : List (Connection ℕ ℕ Wire) → List (Connection ℕ ℕ Wire)
first_two (a ∷ b ∷ l) = a ∷ b ∷ []
first_two l = l

abbrev asker : Connection ℕ ℕ Wire
asker = third asked.connections

-- The stored map: the init hook wrote to key 2, the hook of the event to key 1.
abbrev held_map : ServerMap ℕ ℕ
held_map = (set 1 7 (set 2 20 master).1).1

asked-phase : asker.phase ≡ asking (get_diff digest_of_two 1 9)
unfolding runs
asked-phase = refl

asked-open : asked.server.poisoned ≡ false
unfolding runs
asked-open = refl

asked-found :
    lookup hash_discrete digest_of_two asked.server.inner.statemaps ≡ some (new_mutex held_map)
unfolding runs
asked-found = refl

held-SameContents : SameContents two_entries (snapshot held_map 1)
unfolding evaluated
held-SameContents q = ground arith

get_diff-IsAnswered_example : IsAnswered asker asked.server held_map two_entries 1 9
unfolding runs asked-Run
get_diff-IsAnswered_example =
    get_diff-IsAnswered (writing ∷ []) (opening ∷ []) [] (λ stream. Unit {0}) asked.server
      asked.tasks (first_two asked.connections) asker [] digest_of_two 1 9 (new_mutex held_map)
      two_entries 1 1 writing-Keep opening-KeepInit asked-Run (omega arith) asked-phase asked-open
      asked-found refl (omega arith) (omega arith) held-SameContents (λ l. (flatten l, refl))
