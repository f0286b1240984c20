-- ===== src/Tests/Loopback.antt =====
-- A client and a server that are connected: the theorems at fixtures.
use syncstate.Prelude.{
  ℕ, ◌≡◌, ◌⊎◌, refl, sym, ◌∙◌, ok_inj, arith, false, to_be_bytes, from_be_bytes, ◌<◌, subst, List,
  [], ◌∷◌, ◌++◌, some, ok, err,
}
use syncstate.Diff
use syncstate.Diff.{Diff}
use syncstate.Event.{serialize}
use syncstate.StateMap.Build.{push_all}
use syncstate.StateMap.Defs.{empty_diff, get, into_iter}
use syncstate.StateMap.Freeze.{freeze}
use syncstate.StateMap.GetDiff
use syncstate.StateMap.History.{snapshot}
use syncstate.StateMap.Modify.{set}
use syncstate.StateMap.Update.{set_update_id}
use syncstate.StateMap.Sync.{SameContents}
use syncstate.Tcp.Hooks.{ServerMap, new_mutex}
use syncstate.Tcp.Messages.{get_update_id, update_id, diff}
use syncstate.Tcp.Server.{TcpStateServer, from_tcp_listner, hash_discrete}
use syncstate.Tcp.Server.Init.{run_init_hooks}
use syncstate.Tcp.Server.InitLaws.{IsRebuilt, registered}
use syncstate.Tcp.Server.Requests.{process_request}
use syncstate.Tcp.Remote
use syncstate.Tcp.Remote.{TcpStateRemote, send_request, send_event, tcp_remote}
use syncstate.Tcp.Loopback.{Link, quiet, link}
use syncstate.Tcp.Loopback.Exchange.{send_request-process_request}
use syncstate.Tcp.Server.Stream.{write_response}
use syncstate.Tcp.Wire.{wire}
use syncstate.Tcp.Wire.Frames.{write_response_cut}
use syncstate.Tcp.Loopback.Prepared.{pushed, IsFrozenAt}
use syncstate.Tcp.Loopback.Join.{join_over_link}
use syncstate.Tcp.Loopback.Init.{Returns, freeze_over_link}
use syncstate.Tcp.Loopback.Updates.{DiffReturns, set_update_id_over_link}
use syncstate.Tcp.Loopback.Events.{run_first, event_reaches_slave}
use syncstate.Tests.Fixtures.{
  nat_key, nat_value, identity_digest, nat_order, evaluated, digest_of_two, NatMap, written_twice,
  written_twice-IsMaster,
}
use syncstate.Tests.Codecs.{request_bytes, response_bytes}
use syncstate.Tests.Server.{
  nat_entries, nat_event, empty_server, stocked, two_entries, init_bytes, writing,
}
use syncstate.Tests.Tcp.{slave, slave-SameContents}

abbrev client : TcpStateRemote
client = Remote.new []

abbrev stocked_link : Link ℕ ℕ ℕ
stocked_link = quiet (new_mutex stocked) []

send_request-process_request_example :
    send_request (link 100) client (get_update_id digest_of_two) stocked_link ≡ (
      ok (update_id 2),
      quiet (process_request (get_update_id digest_of_two) stocked_link.server).1 (
          stocked_link.tasks
          ++ (process_request (get_update_id digest_of_two) stocked_link.server).2),
    )
unfolding evaluated new_mutex process_request hash_discrete from_tcp_listner
send_request-process_request_example =
    send_request-process_request 100 client (get_update_id digest_of_two) stocked_link
      (0 ∷ 0 ∷ 0 ∷ digest_of_two) (0 ∷ 1 ∷ 0 ∷ 2 ∷ []) (update_id 2) (omega arith) refl refl refl
      (omega arith, omega arith) refl refl (omega arith, omega arith)

write_response_cut_example :
    (write_response (wire 5) (diff 0 3 false (1 ∷ 33 ∷ 2 ∷ 22 ∷ [])) ([], [])
      ≡ (ok (diff 0 3 false (1 ∷ 33 ∷ 2 ∷ 22 ∷ [])), ([], 0 ∷ 0 ∷ 0 ∷ 9 ∷ 1 ∷ 1 ∷ 1 ∷ 0 ∷ 3 ∷ [])))
    × (5 < 9)
    × (from_be_bytes (0 ∷ 0 ∷ 0 ∷ 9 ∷ []) ≡ 9)
unfolding to_be_bytes
write_response_cut_example =
    write_response_cut 5 (diff 0 3 false (1 ∷ 33 ∷ 2 ∷ 22 ∷ []))
      (1 ∷ 1 ∷ 1 ∷ 0 ∷ 3 ∷ 1 ∷ 33 ∷ 2 ∷ 22 ∷ []) [] [] refl (omega arith) (omega arith)
      (omega arith)

-- The changes that the slave asks for.
abbrev pub changes : Diff ℕ ℕ
changes = record {
  diff = (1, 11) ∷ (2, 22) ∷ [];
  is_full = false;
  from_update_id = 0;
  upto_update_id = 2;
}

pub changed : GetDiff.get_diff 0 9 written_twice ≡ ok changes
unfolding evaluated Diff.merge
changed = refl

abbrev Sent : Diff ℕ ℕ → Type 0
Sent d =
    (bytes : List ℕ) × (nat_entries.encode d.diff ≡ ok bytes)
    × Returns 100 (diff d.from_update_id d.upto_update_id d.is_full bytes)

changes-Sent : Sent changes
changes-Sent = (
  1 ∷ 11 ∷ 2 ∷ 22 ∷ [],
  refl,
  (1 ∷ 1 ∷ 1 ∷ 0 ∷ 2 ∷ 1 ∷ 11 ∷ 2 ∷ 22 ∷ [], refl, (omega arith, omega arith)),
)

changes-DiffReturns : DiffReturns 100 0 9 written_twice
changes-DiffReturns d has = subst Sent (ok_inj (sym changed ∙ has)) changes-Sent

set_update_id_over_link_example :
    SameContents
      (set_update_id (tcp_remote (link 100)) 9 slave stocked_link).1.contents
      (snapshot written_twice 2)
    × ((((set_update_id (tcp_remote (link 100)) 9 slave stocked_link).0 ≡ ok tt)
          × ((set_update_id (tcp_remote (link 100)) 9 slave stocked_link).1.update_id ≡ 2))
        ⊎ (((set_update_id (tcp_remote (link 100)) 9 slave stocked_link).0 ≡ err empty_diff)
            × ((set_update_id (tcp_remote (link 100)) 9 slave stocked_link).1 ≡ slave)))
unfolding evaluated new_mutex hash_discrete from_tcp_listner
set_update_id_over_link_example =
    set_update_id_over_link 100 slave 9 digest_of_two stocked [] written_twice (omega arith) refl
      refl written_twice-IsMaster refl (omega arith) (omega arith) slave-SameContents
      (0 ∷ 1 ∷ 0 ∷ 0 ∷ 9 ∷ digest_of_two, refl, (omega arith, omega arith)) changes-DiffReturns

abbrev empty_link : Link ℕ ℕ ℕ
empty_link = quiet (new_mutex empty_server) []

freeze_over_link_example :
    (s : ServerMap ℕ ℕ) × IsRebuilt two_entries digest_of_two s
    × ((freeze (tcp_remote (link 100)) (pushed client two_entries) empty_link).0 ≡ ok tt)
    × IsFrozenAt client two_entries digest_of_two
        (freeze (tcp_remote (link 100)) (pushed client two_entries) empty_link).1
    × ((freeze (tcp_remote (link 100)) (pushed client two_entries) empty_link).2
        ≡ quiet
            (new_mutex (registered digest_of_two (run_init_hooks [] (new_mutex s)).1 empty_server))
            [])
unfolding evaluated push_all from_tcp_listner run_init_hooks into_iter
freeze_over_link_example =
    freeze_over_link 100 client two_entries digest_of_two init_bytes empty_server []
      (refl, (refl, tt)) refl (omega arith) refl refl refl (λ m. refl) refl
      (0 ∷ 0 ∷ 0 ∷ digest_of_two, refl, (omega arith, omega arith))
      (0 ∷ 0 ∷ 1 ∷ [], refl, (omega arith, omega arith))
      (0 ∷ 1 ∷ 1 ∷ 36 ∷ digest_of_two ++ init_bytes, refl, (omega arith, omega arith))
      (1 ∷ 0 ∷ 0 ∷ [], refl, (omega arith, omega arith))

-- The entries in another order.
abbrev reordered : List (ℕ × ℕ)
reordered = (2, 20) ∷ (1, 10) ∷ []

reordered-SameContents : SameContents reordered (snapshot written_twice 0)
unfolding evaluated
reordered-SameContents q = ground arith

join_over_link_example :
    ((freeze (tcp_remote (link 100)) (pushed client reordered) stocked_link).0 ≡ ok tt)
    × ((freeze (tcp_remote (link 100)) (pushed client reordered) stocked_link).2 ≡ stocked_link)
    × SameContents
        (set_update_id
          (tcp_remote (link 100))
          9
          (freeze (tcp_remote (link 100)) (pushed client reordered) stocked_link).1
          (freeze (tcp_remote (link 100)) (pushed client reordered) stocked_link).2).1.contents
        (snapshot written_twice 2)
unfolding evaluated push_all from_tcp_listner hash_discrete
join_over_link_example =
    join_over_link 100 client reordered digest_of_two stocked [] written_twice 9 (refl, (refl, tt))
      refl (omega arith) refl refl written_twice-IsMaster reordered-SameContents (omega arith)
      (0 ∷ 0 ∷ 0 ∷ digest_of_two, refl, (omega arith, omega arith))
      (0 ∷ 1 ∷ 0 ∷ 2 ∷ [], refl, (omega arith, omega arith))
      (0 ∷ 1 ∷ 0 ∷ 0 ∷ 9 ∷ digest_of_two, refl, (omega arith, omega arith)) changes-DiffReturns

abbrev writer : TcpStateServer ℕ ℕ ℕ
writer = record stocked { hooks = writing ∷ [] }

abbrev writer_link : Link ℕ ℕ ℕ
writer_link = quiet (new_mutex writer) []

abbrev written_thrice : NatMap
written_thrice = (set 1 33 written_twice).1

abbrev more_changes : Diff ℕ ℕ
more_changes = record {
  diff = (1, 33) ∷ (2, 22) ∷ [];
  is_full = false;
  from_update_id = 0;
  upto_update_id = 3;
}

more_changed : GetDiff.get_diff 0 9 written_thrice ≡ ok more_changes
unfolding evaluated Diff.merge
more_changed = refl

more_changes-Sent : Sent more_changes
more_changes-Sent = (
  1 ∷ 33 ∷ 2 ∷ 22 ∷ [],
  refl,
  (1 ∷ 1 ∷ 1 ∷ 0 ∷ 3 ∷ 1 ∷ 33 ∷ 2 ∷ 22 ∷ [], refl, (omega arith, omega arith)),
)

abbrev after_event : Link ℕ ℕ ℕ
after_event = run_first (send_event (link 100) client (33 ∷ []) digest_of_two writer_link).1

event_reaches_slave_example :
    ((send_event (link 100) client (33 ∷ []) digest_of_two writer_link).0 ≡ ok tt)
    × ((q : ℕ)
        → get q (set_update_id (tcp_remote (link 100)) 9 slave after_event).1
          ≡ get q written_thrice)
    × (get 1 (set_update_id (tcp_remote (link 100)) 9 slave after_event).1 ≡ some 33)
unfolding evaluated new_mutex hash_discrete from_tcp_listner serialize
event_reaches_slave_example =
    event_reaches_slave 100 slave digest_of_two writer written_twice writing
      (record { content = 33 }) (33 ∷ []) 1 33 9 (omega arith) refl refl written_twice-IsMaster refl
      (omega arith) refl refl refl (omega arith) (omega arith) slave-SameContents refl
      (0 ∷ 0 ∷ 1 ∷ 36 ∷ digest_of_two ++ 33 ∷ [], refl, (omega arith, omega arith))
      (0 ∷ 1 ∷ 1 ∷ [], refl, (omega arith, omega arith))
      (0 ∷ 1 ∷ 0 ∷ 0 ∷ 9 ∷ digest_of_two, refl, (omega arith, omega arith))
      (λ d has. subst Sent (ok_inj (sym more_changed ∙ has)) more_changes-Sent)
