-- ===== src/Tests/EarlySet.antt =====
-- A slave that was written before it was frozen, and a master with the same digest, at the fixtures.
use syncstate.Prelude.{
  ℕ, ◌≡◌, refl, ap, true, some, [], ◌∷◌, lookup, Outcome, ok, err, panic, arith, String, ℕ_discrete,
}
use syncstate.HashMap.{insert, last_write}
use syncstate.Diff
use syncstate.Diff.{Diff}
use syncstate.StateMap.Build.{IsFresh, new-IsFresh, push_lem, set_master-IsFresh}
use syncstate.StateMap.Defs.{Remote, new, push, set_master, full_diff}
use syncstate.StateMap.EarlySet.{early_set_misses}
use syncstate.StateMap.Freeze.{freeze}
use syncstate.StateMap.Freeze.Laws.{freeze-IsMaster}
use syncstate.StateMap.GetDiff.{get_diff}
use syncstate.StateMap.History.{IsMaster}
use syncstate.StateMap.Modify.{set}
use syncstate.StateMap.Modify.Master.{set_lem, one_write}
use syncstate.StateMap.Update.{set_update_id}
use syncstate.Remote.{DummyRemote, dummy, dummy_remote}
use syncstate.Tests.Fixtures.{
  NatMap, nat_key, nat_value, identity_digest, nat_order, two_pushed, two_pushed-IsFresh, evaluated,
}

-- What the server makes of the slave's entries, and two updates of it.
abbrev rebuilt : NatMap
rebuilt = (set_master true (push 2 20 (push 1 11 (new dummy)).1).1).1

abbrev served : NatMap
served = (freeze {W = Unit {0}} dummy_remote rebuilt tt).1

abbrev twice : NatMap
twice = (set 1 12 (set 2 21 served).1).1

rebuilt-IsFresh : IsFresh rebuilt
rebuilt-IsFresh =
    (set_master-IsFresh true (push 2 20 (push 1 11 (new dummy)).1).1
      (push_lem 2 20 (push 1 11 (new dummy)).1
        (push_lem 1 11 (new dummy) (new-IsFresh dummy)).1).1).1

twice-IsMaster : IsMaster twice
unfolding evaluated
twice-IsMaster =
    let first = (freeze-IsMaster {W = Unit {0}} dummy_remote rebuilt tt rebuilt-IsFresh refl).0 in
    let second = (set_lem 2 21 served first refl (omega arith)).1 in
    (set_lem 1 12 (set 2 21 served).1 second refl (omega arith)).1

abbrev carried : Outcome ⊥ (Diff ℕ ℕ) → Outcome String (Diff ℕ ℕ)
carried (ok d) = ok d
carried (err e) = absurd e
carried panic = panic

abbrev to_twice : Remote ℕ ℕ (DummyRemote {0}) (Unit {0})
to_twice = record {
  fetch_updates = λ r f u h w. (carried (get_diff f u twice), w);
  init = λ r s w. (ok tt, w);
}

abbrev early : NatMap
early = (freeze to_twice (set 1 11 two_pushed).1 tt).1

-- The server knows the slave's map: the digests are the same.
same_digest : early.hash ≡ served.hash
unfolding evaluated
same_digest = refl

early_set_misses_example :
    (lookup ℕ_discrete 2 (set_update_id to_twice 2 early tt).1.contents
      ≡ lookup ℕ_discrete 2 (insert ℕ_discrete 1 11 two_pushed.contents))
    × (lookup ℕ_discrete 2 twice.contents ≡ some 21)
unfolding evaluated last_write
early_set_misses_example =
    early_set_misses to_twice two_pushed 1 11 twice (full_diff served) (one_write 2 21 0)
      (one_write 1 12 1 ∷ []) 2 21 2 tt tt two_pushed-IsFresh refl twice-IsMaster refl refl refl
      (omega arith) (omega arith) (λ h d hashed e. ap carried e)

-- The slave has the master's update id, and the old value.
stale :
    (lookup ℕ_discrete 2 (set_update_id to_twice 2 early tt).1.contents ≡ some 20)
    × ((set_update_id to_twice 2 early tt).1.update_id ≡ 2)
unfolding evaluated set_update_id Diff.is_empty Diff.get_diff Diff.merge
stale = (refl, refl)
