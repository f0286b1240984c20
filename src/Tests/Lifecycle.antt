-- ===== src/Tests/Lifecycle.antt =====
-- Calls on state maps, at the fixtures.
use syncstate.Prelude.{ℕ, refl, ap, sym, ok_inj, [], ◌∷◌, String, arith}
use syncstate.Diff
use syncstate.Diff.{Diff}
use syncstate.StateMap.Modify.{new_modifier, begin_modification, commit}
use syncstate.StateMap.Update.{set_update_id}
use syncstate.StateMap.Lifecycle.{
  Calls, modified, no_calls, set_called, commit_called, set_update_id_called,
}
use syncstate.StateMap.Lifecycle.Frozen.{IsKept, Calls-IsKept}
use syncstate.StateMap.Lifecycle.Master.{IsContinued, HasNoUpdates, Calls-IsContinued}
use syncstate.Remote.{dummy, dummy_remote}
use syncstate.Tests.Fixtures.{
  NatMap, nat_key, nat_value, identity_digest, nat_order, master, written_once, evaluated,
  master-IsMaster,
}

-- A write, a key that is refused, a change of the role that is refused, a batch of two writes of which one is refused, and a
-- call that the remote has no updates for.
abbrev busy : NatMap
busy =
    (set_update_id {W = Unit {0}} dummy_remote 7
      (commit (modified ((2, 21) ∷ (9, 90) ∷ []) (new_modifier written_once))).1 tt).1

busy-Calls : Calls {W = Unit {0}} dummy_remote master 3 busy
unfolding evaluated begin_modification
busy-Calls = set_update_id_called 2 _ 7 tt (
    commit_called 1 written_once (new_modifier written_once) ((2, 21) ∷ (9, 90) ∷ []) refl
      (set_called 0 master 1 11 no_calls))

Calls-IsKept_example : IsKept master busy
Calls-IsKept_example =
    Calls-IsKept {W = Unit {0}} dummy_remote master 3 busy master-IsMaster.frozen busy-Calls

dummy-HasNoUpdates : HasNoUpdates {K = ℕ} {T = ℕ} {W = Unit {0}} dummy_remote dummy
unfolding dummy_remote Diff.new
dummy-HasNoUpdates from upto h w d e = ap (λ x. x.diff) (ok_inj {E = String} (sym e))

Calls-IsContinued_example : IsContinued master busy 3
unfolding evaluated
Calls-IsContinued_example =
    Calls-IsContinued {W = Unit {0}} dummy_remote master 3 busy master-IsMaster dummy-HasNoUpdates
      (omega arith) busy-Calls
