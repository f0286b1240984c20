-- ===== src/Tests/StateMap.antt =====
-- State maps and diffs: runs, and the theorems at the fixtures.
use syncstate.Prelude.{
  ℕ, ◌<◌, ◌≤◌, ◌≡◌, ◌≢◌, ◌⊎◌, inl, refl, true, false, some, none, List, [], ◌∷◌, Outcome, ok, err,
  panic, arith, lookup, String, ite, ℕ_discrete, or_else,
}
use syncstate.HashMap.{Distinct, extend, last_write}
use syncstate.Diff
use syncstate.Diff.{Diff, replay, compress_lem, lookup-extend-merge}
use syncstate.StateMap.Defs.{
  StateMapError, Remote, new, is_frozen, get, frozen, unfrozen, empty_diff, unknown_error,
  fetch_update_error, full_diff,
}
use syncstate.StateMap.Build.{push_all}
use syncstate.StateMap.Freeze.{freeze, calculate_hash}
use syncstate.StateMap.Freeze.Laws.{freeze-IsMaster, freeze_retry}
use syncstate.StateMap.Freeze.HashLaws.{calculate_hash-push_all}
use syncstate.StateMap.History.{IsMaster, snapshot}
use syncstate.StateMap.Modify.{
  StateMapModifier, new_modifier, set, commit, modifier_set, modifier_get,
}
use syncstate.StateMap.Modify.Master.{set_lem, set_errors}
use syncstate.StateMap.Modify.Batch.{IsModifier, modifier_set_lem, commit_lem}
use syncstate.StateMap.GetDiff.{get_diff}
use syncstate.StateMap.GetDiff.Scans.{start_of}
use syncstate.StateMap.GetDiff.Ranges.{stretch, get_diff-stretch, get_diff-full, get_diff-backwards}
use syncstate.StateMap.Sync.{SameContents}
use syncstate.StateMap.Update.{set_update_id, inconsistent_message}
use syncstate.StateMap.Update.Slave.{set_update_id_errors, set_update_id_takes}
use syncstate.Remote.{DummyRemote, dummy}
use syncstate.Tests.Fixtures.{
  digest_of_two, NatMap, nat_key, nat_value, identity_digest, nat_order, two_pushed, to_master,
  master, written_once, written_twice, evaluated, two_pushed-IsFresh, to_master-IsFresh,
  written_once-IsMaster, written_twice-IsMaster,
}

abbrev lift : Outcome ⊥ (Diff ℕ ℕ) → Outcome String (Diff ℕ ℕ)
lift (ok d) = ok d
lift (err e) = absurd e
lift panic = panic

-- A remote that reads its master directly.
abbrev direct : Remote ℕ ℕ (DummyRemote {0}) (Unit {0})
direct = record {
  fetch_updates = λ r f u h w. (lift (get_diff f u written_twice), w);
  init = λ r s w. (ok tt, w);
}

-- A remote that cannot be reached.
abbrev unreachable : Remote ℕ ℕ (DummyRemote {0}) (Unit {0})
unreachable = record {
  fetch_updates = λ r f u h w. (err "refused", w);
  init = λ r s w. (err "refused", w);
}

abbrev slave : NatMap
slave = (freeze direct two_pushed tt).1

slave-hash : slave.hash ≡ some digest_of_two
unfolding evaluated
slave-hash = refl

slave_reads : (set_update_id direct 9 slave tt).1.contents ≡ (1, 11) ∷ (2, 22) ∷ []
unfolding evaluated set_update_id Diff.is_empty Diff.get_diff Diff.merge
slave_reads = refl

slave-SameContents : SameContents slave.contents (snapshot written_twice 0)
unfolding evaluated
slave-SameContents q = refl

get_diff-stretch_example :
    get_diff 1 2 written_twice ≡ ok (Diff.merge (stretch (start_of 1) 2 written_twice.diffs))
unfolding evaluated
get_diff-stretch_example =
    get_diff-stretch written_twice written_twice-IsMaster.history 1 2 (inl (omega arith))
      (omega arith)

get_diff-full_example : get_diff 2 9 written_twice ≡ ok (full_diff written_twice)
unfolding evaluated
get_diff-full_example = get_diff-full written_twice written_twice-IsMaster.history 1 9 (omega arith)

get_diff-backwards_example : get_diff 1 0 written_twice ≡ panic
unfolding evaluated
get_diff-backwards_example =
    get_diff-backwards written_twice written_twice-IsMaster.history 1 0 (omega arith) (omega arith)

set_lem_example :
    ((set 2 7 written_once).0 ≡ ok tt)
    × IsMaster (set 2 7 written_once).1
    × ((set 2 7 written_once).1.update_id ≡ 2)
    × ((q : ℕ)
        → get q (set 2 7 written_once).1 ≡ ite (ℕ_discrete q 2) (some 7) (get q written_once))
    × ((i : ℕ) → i ≤ 1 → snapshot (set 2 7 written_once).1 i ≡ snapshot written_once i)
unfolding evaluated
set_lem_example = set_lem 2 7 written_once written_once-IsMaster refl (omega arith)

set_errors_example :
    ((set 9 7 master).0 ≢ panic)
    × ((e : StateMapError)
        → (set 9 7 master).0 ≡ err e
        → ((set 9 7 master).1 ≡ master)
          × (((e ≡ StateMapError.key_not_found) × (get 9 master ≡ none))
              ⊎ ((e ≡ frozen) × (is_frozen master ≡ true) × (master.is_master ≡ false))))
set_errors_example = set_errors 9 7 master

abbrev mods : StateMapModifier ℕ ℕ (DummyRemote {0})
mods = new_modifier written_once

abbrev mods_two : StateMapModifier ℕ ℕ (DummyRemote {0})
mods_two = (modifier_set 2 9 mods).1

mods-IsModifier : IsModifier mods
unfolding new_modifier lookup
mods-IsModifier = record { distinct = tt; covered = λ q h. cc }

commit_lem_example :
    ((commit mods_two).0 ≡ ok tt)
    × IsMaster (commit mods_two).1
    × ((commit mods_two).1.update_id ≡ 2)
    × ((q : ℕ) → get q (commit mods_two).1 ≡ modifier_get q mods_two)
    × ((i : ℕ) → i ≤ 1 → snapshot (commit mods_two).1 i ≡ snapshot mods_two.statemap i)
unfolding evaluated new_modifier modifier_set
commit_lem_example =
    commit_lem mods_two (modifier_set_lem 2 9 mods mods-IsModifier).0 written_once-IsMaster
      (omega arith)

abbrev no_remote : DummyRemote {0}
no_remote = dummy

abbrev entries : List (ℕ × ℕ)
entries = (1, 10) ∷ (2, 20) ∷ []

abbrev entries_swapped : List (ℕ × ℕ)
entries_swapped = (2, 20) ∷ (1, 10) ∷ []

swapped-SameContents : SameContents {K = ℕ} {T = ℕ} entries entries_swapped
unfolding lookup
swapped-SameContents q = ground arith

calculate_hash-push_all_example :
    (calculate_hash (push_all entries (new no_remote)).1).0
    ≡ (calculate_hash (push_all entries_swapped (new no_remote)).1).0
unfolding evaluated
calculate_hash-push_all_example =
    calculate_hash-push_all entries entries_swapped no_remote no_remote (refl, (refl, tt))
      (refl, (refl, tt)) swapped-SameContents

freeze-IsMaster_example :
    IsMaster (freeze unreachable to_master tt).1
    × ((freeze unreachable to_master tt).1.update_id ≡ 0)
    × ((q : ℕ) → get q (freeze unreachable to_master tt).1 ≡ get q to_master)
unfolding evaluated
freeze-IsMaster_example = freeze-IsMaster unreachable to_master tt to_master-IsFresh refl

freeze_retry_example :
    freeze unreachable (freeze unreachable two_pushed tt).1 tt
    ≡ (ok tt, (freeze unreachable two_pushed tt).1, tt)
unfolding evaluated
freeze_retry_example =
    freeze_retry unreachable two_pushed tt tt (unknown_error "refused") two_pushed-IsFresh refl

set_update_id_errors_example :
    (0 ≤ slave.update_id → set_update_id direct 0 slave tt ≡ (ok tt, slave, tt))
    × ((set_update_id direct 0 slave tt).0 ≢ ok tt → (set_update_id direct 0 slave tt).1 ≡ slave)
    × (slave.update_id < 0
        → slave.hash ≡ none
        → set_update_id direct 0 slave tt ≡ (err unfrozen, slave, tt))
set_update_id_errors_example = set_update_id_errors direct 0 slave tt

abbrev repeated : Diff ℕ ℕ
repeated = record {
  diff = (1, 5) ∷ (2, 6) ∷ (1, 7) ∷ [];
  is_full = false;
  from_update_id = 3;
  upto_update_id = 6;
}

compress_lem_example :
    ((q : ℕ) (m : List (ℕ × ℕ))
      → lookup ℕ_discrete q (extend ℕ_discrete m (Diff.compress repeated).diff)
        ≡ lookup ℕ_discrete q (extend ℕ_discrete m repeated.diff))
    × Distinct ℕ_discrete (Diff.compress repeated).diff
    × ((Diff.compress repeated).is_full ≡ false)
    × ((Diff.compress repeated).from_update_id ≡ 3)
    × ((Diff.compress repeated).upto_update_id ≡ 6)
compress_lem_example = compress_lem repeated

lookup-extend-merge_example :
    lookup ℕ_discrete 1 (extend ℕ_discrete entries (Diff.merge (repeated ∷ repeated ∷ [])).diff)
    ≡ lookup ℕ_discrete 1 (replay entries (repeated ∷ repeated ∷ []))
lookup-extend-merge_example = lookup-extend-merge 1 entries (repeated ∷ repeated ∷ [])

-- A master that lost its updates answers with its whole contents, at a smaller id.
abbrev whole : Diff ℕ ℕ
whole = record { diff = (1, 10) ∷ []; is_full = true; from_update_id = 0; upto_update_id = 0 }

abbrev restarted : Remote ℕ ℕ (DummyRemote {0}) (Unit {0})
restarted = record direct { fetch_updates = λ r f u h w. (ok whole, w) }

abbrev ahead : NatMap
ahead = record slave { update_id = 5 }

set_update_id_takes_example :
    ((whole.diff ≡ [])
      × ((set_update_id restarted 9 ahead tt).0 ≡ err empty_diff)
      × ((set_update_id restarted 9 ahead tt).1 ≡ ahead))
    ⊎ (((whole.diff ≢ [])
          × (5 < whole.from_update_id)
          × ((set_update_id restarted 9 ahead tt).0
              ≡ err (fetch_update_error (inconsistent_message whole.from_update_id 5)))
          × ((set_update_id restarted 9 ahead tt).1 ≡ ahead))
        ⊎ ((whole.diff ≢ [])
            × (whole.from_update_id ≤ 5)
            × ((set_update_id restarted 9 ahead tt).0 ≡ ok tt)
            × ((set_update_id restarted 9 ahead tt).1.update_id ≡ whole.upto_update_id)
            × ((q : ℕ)
                → get q (set_update_id restarted 9 ahead tt).1
                  ≡ or_else (last_write ℕ_discrete q whole.diff) (get q ahead))))
unfolding evaluated
set_update_id_takes_example =
    set_update_id_takes restarted 9 ahead tt digest_of_two whole (omega arith) refl refl

-- It is taken: the slave's id has moved back from 5 to 0.
moved_back : (set_update_id restarted 9 ahead tt).1.update_id ≡ 0
unfolding evaluated set_update_id Diff.is_empty Diff.get_diff
moved_back = refl
