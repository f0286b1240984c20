-- ===== src/Tests/Server.antt =====
-- The server: runs, and the theorems at the fixtures.
use syncstate.Prelude.{
  inr, ℕ, ◌≡◌, refl, ap, sym, ok_inj, ◌∙◌, arith, lookup, none, List, [], ◌∷◌, ◌++◌, Outcome, ok,
  err, panic, String,
}
use syncstate.Bincode.{Codec}
use syncstate.StateMap.Build.{push_all}
use syncstate.StateMap.Defs.{StateMapError}
use syncstate.StateMap.Modify.{set}
use syncstate.Remote.{DummyRemote, dummy}
use syncstate.Tcp.Hooks.{Hook, InitHook, ServerMap, new_mutex}
use syncstate.Tcp.Messages.{event, get_diff, init, init_success, hash_mismatch, hash_not_found}
use syncstate.Tcp.Server.{
  TcpStateServer, Task, handle_event, spawn_hooks, decode_error, hash_discrete, from_tcp_listner,
  set_init_hooks,
}
use syncstate.Tcp.Server.Init.{begin_init, finish_init, run_init_hooks}
use syncstate.Tcp.Server.Requests.{start_request, process_request, process_locked, init_begun}
use syncstate.Tcp.Server.Steps.{System, Reachable, start, serve_request, run_next_hook, run_hook}
use syncstate.Tcp.Server.SafeSteps.{IsSafe, Reachable-IsSafe}
use syncstate.Tcp.Server.Safe.{Keep, KeepInit, insert-IsServer}
use syncstate.Tcp.Server.SafeHooks.{written, written-Keep, written-KeepInit}
use syncstate.HashMap.{insert}
use syncstate.Event.{deserialize}
use syncstate.Tcp.Server.Answers.{IsDown, get_diff-IsDown}
use syncstate.Tcp.Server.InitLaws.{
  Describes, IsRebuilt, pending, registered, init-IsRebuilt, init_mismatch,
}
use syncstate.Tcp.Server.InitTaken.{taken}
use syncstate.Tcp.Server.InitRace.{given_up, init_race}
use syncstate.Tests.Fixtures.{
  nat_key, nat_value, identity_digest, nat_order, written_twice, evaluated, written_twice-IsMaster,
  digest_of_two,
}

abbrev pub flatten : List (ℕ × ℕ) → List ℕ
flatten [] = []
flatten ((k, v) ∷ l) = k ∷ v ∷ flatten l

abbrev prepend : ℕ → ℕ → Outcome String (List (ℕ × ℕ)) → Outcome String (List (ℕ × ℕ))
prepend k v (ok l) = ok ((k, v) ∷ l)
prepend k v (err e) = err e
prepend k v panic = panic

abbrev pairs : List ℕ → Outcome String (List (ℕ × ℕ))
pairs [] = ok []
pairs (k ∷ []) = err "unexpected end"
pairs (k ∷ v ∷ l) = prepend k v (pairs l)

pairs-flatten : (l : List (ℕ × ℕ)) → pairs (flatten l) ≡ ok l
pairs-flatten [] = refl
pairs-flatten ((k, v) ∷ l) = ap (prepend k v) (pairs-flatten l)

pub pairs_of_bytes :
    (l : List (ℕ × ℕ)) (bytes : List ℕ)
    → ◌≡◌ {A = Outcome String (List ℕ)} (ok (flatten l)) (ok bytes)
    → pairs bytes ≡ ok l
pairs_of_bytes l bytes h = ap pairs (sym (ok_inj h)) ∙ pairs-flatten l

instance abbrev pub nat_entries : Codec (List (ℕ × ℕ))
nat_entries = record {
  encode = λ l. ok (flatten l);
  decode = pairs;
  decode-encode = pairs_of_bytes;
}

abbrev one_number : List ℕ → Outcome String ℕ
one_number (n ∷ []) = ok n
one_number _ = err "not an event"

pub one_number_of_bytes :
    (n : ℕ) (bytes : List ℕ)
    → ◌≡◌ {A = Outcome String (List ℕ)} (ok (n ∷ [])) (ok bytes)
    → one_number bytes ≡ ok n
one_number_of_bytes n bytes h = ap one_number (sym (ok_inj h))

instance abbrev pub nat_event : Codec ℕ
nat_event = record {
  encode = λ n. ok (n ∷ []);
  decode = one_number;
  decode-encode = one_number_of_bytes;
}

abbrev pub empty_server : TcpStateServer ℕ ℕ ℕ
empty_server = from_tcp_listner [] []

abbrev pub stocked : TcpStateServer ℕ ℕ ℕ
stocked = record empty_server { statemaps = (digest_of_two, new_mutex written_twice) ∷ [] }

get_diff-IsDown_example :
    IsDown {E = ℕ} (process_request (get_diff digest_of_two 1 0) (new_mutex stocked))
unfolding evaluated new_mutex hash_discrete
get_diff-IsDown_example =
    get_diff-IsDown digest_of_two 1 0 stocked written_twice refl written_twice-IsMaster
      (omega arith) (omega arith)

abbrev pub two_entries : List (ℕ × ℕ)
two_entries = (1, 10) ∷ (2, 20) ∷ []

abbrev pub init_bytes : List ℕ
init_bytes = 1 ∷ 10 ∷ 2 ∷ 20 ∷ []

abbrev pub client_remote : DummyRemote {0}
client_remote = dummy

two-Describes : Describes init_bytes two_entries client_remote digest_of_two
unfolding evaluated push_all
two-Describes = record { decoded = refl; distinct = (refl, (refl, tt)); digest = refl }

init-IsRebuilt_example :
    (s : ServerMap ℕ ℕ) × IsRebuilt two_entries digest_of_two s
    × (process_request (init digest_of_two init_bytes) (new_mutex empty_server) ≡ (
      ok init_success,
      new_mutex (registered digest_of_two (run_init_hooks [] (new_mutex s)).1 empty_server),
      [],
    ))
    × (lookup hash_discrete digest_of_two
          (process_request
            (init digest_of_two init_bytes)
            (new_mutex empty_server)).1.inner.processed_hashes
        ≡ none)
unfolding from_tcp_listner lookup run_init_hooks
init-IsRebuilt_example =
    init-IsRebuilt digest_of_two init_bytes two_entries client_remote empty_server two-Describes
      refl refl (λ m. refl)

init_mismatch_example :
    (process_request (init [] init_bytes) (new_mutex empty_server)
      ≡ (ok hash_mismatch, new_mutex (taken [] empty_server), []))
    × (process_request (init [] []) (new_mutex (taken [] empty_server))
        ≡ (ok init_success, new_mutex (taken [] empty_server), []))
    × ((f u : ℕ)
        → process_request (get_diff [] f u) (new_mutex (taken [] empty_server))
          ≡ (ok hash_not_found, new_mutex (taken [] empty_server), []))
unfolding from_tcp_listner lookup
init_mismatch_example =
    init_mismatch [] digest_of_two init_bytes [] two_entries client_remote empty_server
      two-Describes (λ e. cc) refl refl

-- An odd number of bytes lists no entries.
init_race_example :
    (start_request (init digest_of_two (5 ∷ [])) (new_mutex empty_server) ≡ (
      inr (pending digest_of_two (5 ∷ []) empty_server),
      new_mutex (taken digest_of_two empty_server),
      [],
    ))
    × (process_request
          (init digest_of_two init_bytes)
          (new_mutex (taken digest_of_two empty_server))
        ≡ (ok init_success, new_mutex (taken digest_of_two empty_server), []))
    × (finish_init
          (pending digest_of_two (5 ∷ []) empty_server)
          (new_mutex (taken digest_of_two empty_server))
        ≡ (err (decode_error "unexpected end"), new_mutex (given_up digest_of_two empty_server)))
    × (process_request
          (get_diff digest_of_two 0 1)
          (new_mutex (given_up digest_of_two empty_server))
        ≡ (ok hash_not_found, new_mutex (given_up digest_of_two empty_server), []))
unfolding from_tcp_listner lookup
init_race_example =
    init_race digest_of_two (5 ∷ []) init_bytes "unexpected end" empty_server 0 1 refl refl refl

-- A hook that refuses every event and leaves the map as it is.
abbrev pub refusing : Hook ℕ ℕ ℕ
refusing = record { process_event = λ m event. (err "refused", m) }

-- A hook that writes the number of the event to key 1.
abbrev pub reported : Outcome StateMapError (Unit {0}) → Outcome String (Unit {0})
reported (ok done) = ok tt
reported (err e) = err "not written"
reported panic = panic

abbrev pub writing : Hook ℕ ℕ ℕ
writing = record {
  process_event =
      λ m evt. let (done, s) = set 1 evt.content m.inner in (reported done, record m { inner = s });
}

abbrev pub idle : System ℕ ℕ ℕ
idle = record {
  server = new_mutex (set_init_hooks [] (from_tcp_listner (refusing ∷ []) []));
  tasks = [];
  inits = [];
}

-- An `Init` that has let go of the lock.
abbrev pub initialising : System ℕ ℕ ℕ
initialising = record {
  server = (start_request (init digest_of_two init_bytes) idle.server).1;
  tasks = [];
  inits = record { hash = digest_of_two; init_data = init_bytes; init_hooks = [] } ∷ [];
}

pub initialising-Reachable : Reachable idle initialising
unfolding start_request process_locked init_begun begin_init new_mutex from_tcp_listner
    set_init_hooks lookup
initialising-Reachable = serve_request idle (init digest_of_two init_bytes) start

pub writing-Keep : Keep 1 (writing ∷ [])
unfolding written
writing-Keep =
    written-Keep 1 (λ s evt. (1, evt.content) ∷ []) (λ s evt. reported (set 1 evt.content s).0)
      (λ s evt. omega arith)

-- A hook that writes twice.
abbrev writing_twice : Hook ℕ ℕ ℕ
writing_twice = record {
  process_event = λ m evt. (ok tt, record m { inner = (set 2 0 (set 1 evt.content m.inner).1).1 });
}

written-Keep_example : Keep 2 (writing_twice ∷ [])
unfolding written
written-Keep_example =
    written-Keep 2 (λ s evt. (1, evt.content) ∷ (2, 0) ∷ []) (λ s evt. ok tt) (λ s evt. omega arith)

-- A hook that writes 20 to key 2 of a new map.
abbrev pub opening : InitHook ℕ ℕ
opening = record {
  process_init = λ m. let (done, s) = set 2 20 m.inner in (reported done, record m { inner = s });
}

pub opening-KeepInit : KeepInit 1 1 (opening ∷ [])
unfolding written
opening-KeepInit =
    written-KeepInit 1 (λ s. (2, 20) ∷ []) (λ s. reported (set 2 20 s).0) (λ s. omega arith)

-- A server with a map and a hook that writes.
abbrev writer : System ℕ ℕ ℕ
writer = record {
  server = new_mutex (record empty_server {
    statemaps = insert hash_discrete digest_of_two (new_mutex written_twice) [];
    hooks = writing ∷ [];
    init_hooks = opening ∷ [];
  });
  tasks = [];
  inits = [];
}

unfoldable runs : Unit {0}
unfolding evaluated new_mutex from_tcp_listner set_init_hooks hash_discrete insert lookup
    start_request process_locked handle_event spawn_hooks deserialize
runs = tt

writer-IsSafe : IsSafe 1 1 2 writer
unfolding runs
writer-IsSafe = record {
  safe =
      insert-IsServer 1 1 2 digest_of_two (new_mutex written_twice)
        (record empty_server { hooks = writing ∷ []; init_hooks = opening ∷ [] })
        (record {
          stored = λ hash m found. absurd cc;
          keep = writing-Keep;
          keep_init = opening-KeepInit;
        })
        (λ clear. (written_twice-IsMaster, refl, omega arith));
  tasks_keep = tt;
  inits_keep = tt;
  room = omega arith;
}

-- After an event, a thread that will run the hook.
abbrev task : Task ℕ ℕ ℕ
task = record { statemap = digest_of_two; event = record { content = 7 }; hooks = writing ∷ [] }

abbrev written_once_more : System ℕ ℕ ℕ
written_once_more = record {
  server = record writer.server { inner = (run_hook task writer.server.inner).0 };
  tasks = (run_hook task writer.server.inner).1 ++ [];
  inits = [];
}

unfoldable writer-Reachable : Reachable writer written_once_more
unfolding runs
writer-Reachable =
    run_next_hook writer.server [] [] task []
      (serve_request writer (event digest_of_two (7 ∷ [])) start)

Reachable-IsSafe_example : IsSafe 1 1 3 written_once_more
unfolding writer-Reachable
Reachable-IsSafe_example =
    Reachable-IsSafe 1 1 2 writer written_once_more writer-IsSafe writer-Reachable (omega arith)
