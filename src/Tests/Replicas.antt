-- ===== src/Tests/Replicas.antt =====
-- A slave that follows a master that is edited, at the fixtures.
use native.Mathlib.Nat.{ℕ_set}
use syncstate.Prelude.{
  ℕ, ◌≡◌, ◌⊎◌, refl, ap, List, [], ◌∷◌, take, Outcome, ok, err, panic, arith, String,
}
use syncstate.Diff.{Diff}
use syncstate.StateMap.Defs.{Remote, empty_diff}
use syncstate.StateMap.Freeze.{freeze}
use syncstate.StateMap.GetDiff.{get_diff}
use syncstate.StateMap.Replicas.{Edit, single, batch, view, edited, apply_edits}
use syncstate.StateMap.Replicas.Follow.{IsReplica, set_update_id-IsReplica}
use syncstate.StateMap.Update.{set_update_id}
use syncstate.Remote.{DummyRemote, dummy_remote}
use syncstate.Tests.Fixtures.{
  NatMap, nat_key, nat_value, identity_digest, nat_order, two_pushed, master, evaluated,
  master-IsMaster, digest_of_two,
}

abbrev edits : List (Edit ℕ ℕ)
edits = single 1 11 ∷ batch ((2, 21) ∷ (1, 12) ∷ (2, 22) ∷ []) ∷ []

abbrev lifted : Outcome ⊥ (Diff ℕ ℕ) → Outcome String (Diff ℕ ℕ)
lifted (ok d) = ok d
lifted (err e) = absurd e
lifted panic = panic

abbrev following : Remote ℕ ℕ (DummyRemote {0}) (Unit {0})
following = record {
  fetch_updates = λ r f u h w. (lifted (get_diff f u (apply_edits edits master)), w);
  init = λ r s w. (ok tt, w);
}

abbrev replica : NatMap
replica = (freeze {W = Unit {0}} dummy_remote two_pushed tt).1

replica-IsReplica : IsReplica master edits 0 replica
unfolding evaluated
replica-IsReplica = record { at_edit = refl; same_view = refl }

set_update_id-IsReplica_example :
    (view (set_update_id following 1 replica tt).1 ≡ edited (take 1 edits) (view master))
    × ((((set_update_id following 1 replica tt).0 ≡ ok tt)
          × ((set_update_id following 1 replica tt).1.update_id ≡ 1))
        ⊎ (((set_update_id following 1 replica tt).0 ≡ err empty_diff)
            × ((set_update_id following 1 replica tt).1 ≡ replica)))
unfolding evaluated
set_update_id-IsReplica_example =
    set_update_id-IsReplica ℕ_set following master edits 0 1 replica tt digest_of_two
      master-IsMaster ((refl, tt), ((refl, (refl, (refl, tt))), tt)) (omega arith) refl
      (omega arith) replica-IsReplica (omega arith) (λ d e. ap lifted e)
