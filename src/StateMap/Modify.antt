-- ===== src/StateMap/Modify.antt =====
-- `set`, `begin_modification` and `StateMapModifier`: a master changes values.
pub mod Master
pub mod Batch
use syncstate.Prelude.{
  ℕ, String, Bool, true, false, not, ◌||◌, Option, none, some, List, [], ◌∷◌, ◌++◌, lookup, Outcome,
  ok, err, panic, ◌>>=◌, if◌then◌else◌, is_some, or_else, u64_inc, u64_dec,
}
use syncstate.HashMap.{HashMap, insert, contains_key, IterOrder}
use syncstate.Traits.{StateMapKey}
use syncstate.Diff
use syncstate.Diff.{Diff}
use syncstate.StateMap.Defs.{StateMap, StateMapError, frozen, key_not_found, is_frozen, get}

module _ {ℓ} {K T R : Type ℓ} ⦃key : StateMapKey K⦄ where
  -- The `assert!` on the value that `insert` returns.
  unfoldable pub insert_existing :
      K → T → StateMap K T R → Outcome StateMapError (Unit {0}) × StateMap K T R
  insert_existing k value s = (
    if is_some (lookup key.eq_dec k s.contents) then ok tt else panic,
    record s { contents = insert key.eq_dec k value s.contents },
  )

  -- The new update id and its diff, after a write that did not panic.
  unfoldable pub record_change :
      List (K × T)
      → Outcome StateMapError (Unit {0}) × StateMap K T R
      → Outcome StateMapError (Unit {0}) × StateMap K T R
  unfolding Diff.new u64_dec
  record_change changes (ok done, s) = (
    ok tt,
    record s { diffs = s.diffs ++ Diff.new changes false (u64_dec s.update_id) s.update_id ∷ [] },
  )
  record_change changes (err e, s) = (err e, s)
  record_change changes (panic, s) = (panic, s)

  abbrev bump_id : StateMap K T R → StateMap K T R
  bump_id s = record s { update_id = u64_inc s.update_id }

  unfoldable pub set : K → T → StateMap K T R → Outcome StateMapError (Unit {0}) × StateMap K T R
  unfolding is_frozen insert_existing record_change u64_inc
  set k value s =
      if contains_key key.eq_dec k s.contents
      then if not (is_frozen s) || s.is_master
        then (let (asserted, s') = insert_existing k value s in
            record_change ((k, value) ∷ []) (asserted, bump_id s'))
        else (err frozen, s)
      else (err key_not_found, s)

-- `StateMapModifier`; it holds the only reference to its state map.
pub record StateMapModifier {ℓ} (K T R : Type ℓ) : Type ℓ where
  pub statemap : StateMap K T R
  pub diff : HashMap K T

module _ {ℓ} {K T R : Type ℓ} where
  unfoldable pub new_modifier : StateMap K T R → StateMapModifier K T R
  new_modifier s = record { statemap = s; diff = [] }

  unfoldable pub begin_modification :
      StateMap K T R → Outcome StateMapError (StateMapModifier K T R)
  unfolding is_frozen new_modifier
  begin_modification s =
      if not (is_frozen s) || s.is_master then ok (new_modifier s) else err frozen

module _ {ℓ} {K T R : Type ℓ} ⦃key : StateMapKey K⦄ where
  unfoldable pub modifier_get : K → StateMapModifier K T R → Option T
  unfolding get
  modifier_get k mods = or_else (lookup key.eq_dec k mods.diff) (get k mods.statemap)

  unfoldable pub modifier_set :
      K → T → StateMapModifier K T R → Outcome StateMapError (Unit {0}) × StateMapModifier K T R
  modifier_set k value mods =
      if contains_key key.eq_dec k mods.statemap.contents
      then (ok tt, record mods { diff = insert key.eq_dec k value mods.diff })
      else (err key_not_found, mods)

  -- The loop of `commit`; a failed assertion ends it.
  unfoldable pub commit_loop :
      List (K × T)
      → Outcome StateMapError (Unit {0}) × StateMap K T R
      → Outcome StateMapError (Unit {0}) × StateMap K T R
  unfolding insert_existing
  commit_loop [] r = r
  commit_loop ((k, v) ∷ l) (ok done, s) = commit_loop l (insert_existing k v s)
  commit_loop ((k, v) ∷ l) (err e, s) = (err e, s)
  commit_loop ((k, v) ∷ l) (panic, s) = (panic, s)

  unfoldable pub commit :
      ⦃order : IterOrder K T key.eq_dec⦄
      → StateMapModifier K T R
      → Outcome StateMapError (Unit {0}) × StateMap K T R
  unfolding u64_inc commit_loop record_change
  commit ⦃order⦄ mods = record_change (order.iter mods.diff) (
      commit_loop (order.iter mods.diff)
        (ok tt, record mods.statemap { update_id = u64_inc mods.statemap.update_id }))
