-- ===== src/StateMap/Update.antt =====
-- `set_update_id`: a slave asks its remote for the changes.
pub mod Slave
use syncstate.Prelude.{
  ℕ, String, str_append, Option, none, some, Outcome, ok, err, panic, map_err, ltb, if◌then◌else◌,
  u64_to_string,
}
use syncstate.HashMap.{extend}
use syncstate.Traits.{StateMapKey}
use syncstate.Diff
use syncstate.Diff.{Diff}
use syncstate.StateMap.Defs.{
  StateMap, StateMapError, Hash, Remote, unfrozen, empty_diff, fetch_update_error,
}

unfoldable pub inconsistent_message : ℕ → ℕ → String
unfolding u64_to_string
inconsistent_message diff_from own_id =
    str_append "The from update id is not consistent, diff from_update_id: " (
      str_append (u64_to_string diff_from) (str_append ", self update_id: " (u64_to_string own_id)))

module _ {ℓ} {K T R : Type ℓ} ⦃key : StateMapKey K⦄ where
  -- What is done with the fetched diff.
  unfoldable pub commit_fetched :
      Outcome StateMapError (Diff K T)
      → StateMap K T R
      → Outcome StateMapError (Unit {0}) × StateMap K T R
  unfolding Diff.is_empty Diff.get_diff
  commit_fetched (err e) s = (err e, s)
  commit_fetched panic s = (panic, s)
  commit_fetched (ok diff) s =
      if Diff.is_empty diff
      then (err empty_diff, s)
      else if ltb s.update_id diff.from_update_id
      then (err (fetch_update_error (inconsistent_message diff.from_update_id s.update_id)), s)
      else (
        ok tt,
        record s {
          update_id = diff.upto_update_id;
          contents = extend key.eq_dec s.contents (Diff.get_diff diff);
        },
      )

module _ {ℓ} {K T R W : Type ℓ} ⦃key : StateMapKey K⦄ (remotes : Remote K T R W) where
  unfoldable pub fetch_with :
      ℕ → Option Hash → StateMap K T R → W → Outcome StateMapError (Unit {0}) × StateMap K T R × W
  unfolding commit_fetched
  fetch_with update_id none s w = (err unfrozen, s, w)
  fetch_with update_id (some hash) s w =
      let (fetched, w') = remotes.fetch_updates s.remote s.update_id update_id hash w in
      let (result, s') = commit_fetched (map_err fetch_update_error fetched) s in (result, s', w')

  unfoldable pub set_update_id :
      ℕ → StateMap K T R → W → Outcome StateMapError (Unit {0}) × StateMap K T R × W
  unfolding fetch_with
  set_update_id update_id s w =
      if ltb s.update_id update_id then fetch_with update_id s.hash s w else (ok tt, s, w)
