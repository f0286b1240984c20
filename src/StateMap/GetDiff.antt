-- ===== src/StateMap/GetDiff.antt =====
-- `get_diff`: the changes between two update ids, out of the history of a master.
pub mod Scans
pub mod Ranges
pub mod Bounds
use syncstate.Prelude.{
  ℕ, zero, suc, ◌+◌, ◌-◌, Bool, true, Option, none, some, List, [], ◌∷◌, Outcome, ok, err, panic,
  ltb, leb, ◌&&◌, ◌==◌, if◌then◌else◌, length, take, drop, head?, get_last?, reverse,
}
use syncstate.HashMap.{IterOrder}
use syncstate.Traits.{StateMapKey}
use syncstate.Diff
use syncstate.Diff.{Diff}
use syncstate.StateMap.Defs.{StateMap, full_diff}

-- How a loop over the history ends: `break` with an index, an early `return` at an index, or the
-- end of the iteration.
pub data Scan : Type 0 where
  break_at : ℕ → Scan
  return_at : ℕ → Scan
  finished : Scan

module _ {ℓ} {K T : Type ℓ} where
  -- `iter().enumerate()`, counting from `i`
  unfoldable pub enumerate : ℕ → List (Diff K T) → List (ℕ × Diff K T)
  enumerate i [] = []
  enumerate i (x ∷ xs) = (i, x) ∷ enumerate (suc i) xs

  unfoldable pub scan_from : ℕ → List (ℕ × Diff K T) → Scan
  scan_from from_update_id [] = finished
  scan_from from_update_id ((idx, x) ∷ rest) =
      if x.from_update_id == from_update_id
      then break_at idx
      else if ltb from_update_id x.from_update_id
      then return_at idx
      else scan_from from_update_id rest

  unfoldable pub scan_upto : ℕ → List (ℕ × Diff K T) → Scan
  scan_upto upto_update_id [] = finished
  scan_upto upto_update_id ((idx, x) ∷ rest) =
      if x.upto_update_id == upto_update_id
      then break_at idx
      else if ltb x.upto_update_id upto_update_id
      then return_at idx
      else scan_upto upto_update_id rest

  -- `VecDeque::range(start..=end)`, which panics out of bounds.
  unfoldable pub range : ℕ → ℕ → List (Diff K T) → Outcome ⊥ (List (Diff K T))
  range start end diffs =
      if leb start (end + 1) && leb (end + 1) (length diffs)
      then ok (take (end + 1 - start) (drop start diffs))
      else panic

module _ {ℓ} {K T R : Type ℓ} ⦃key : StateMapKey K⦄ ⦃order : IterOrder K T key.eq_dec⦄ where
  -- `Diff::merge(self.diffs.range(start..=end).cloned())`
  unfoldable pub merge_range : ℕ → ℕ → StateMap K T R → Outcome ⊥ (Diff K T)
  unfolding range Diff.merge
  merge_range start end s = elim (range start end s.diffs) [
    | ok ds ↦ ok (Diff.merge ds)
    | err e ↦ err e
    | panic ↦ panic
  ]

  -- After the second loop; `end` is the length of the history, or where the loop broke off.
  unfoldable pub finish : ℕ → ℕ → Option (Diff K T) → ℕ → StateMap K T R → Outcome ⊥ (Diff K T)
  unfolding merge_range Diff.empty
  finish start end none upto_update_id s = panic
  finish start end (some front) upto_update_id s =
      if ltb upto_update_id front.upto_update_id then ok Diff.empty else merge_range start end s

  unfoldable pub after_upto : ℕ → ℕ → Scan → StateMap K T R → Outcome ⊥ (Diff K T)
  unfolding finish
  after_upto start upto_update_id (break_at idx) s =
      finish start idx (head? s.diffs) upto_update_id s
  after_upto start upto_update_id (return_at idx) s = merge_range start idx s
  after_upto start upto_update_id finished s =
      finish start (length s.diffs) (head? s.diffs) upto_update_id s

  -- After the first loop, with the `start` that it left.
  unfoldable pub check_back : ℕ → ℕ → ℕ → Option (Diff K T) → StateMap K T R → Outcome ⊥ (Diff K T)
  unfolding after_upto full_diff enumerate scan_upto
  check_back start from_update_id upto_update_id none s = panic
  check_back start from_update_id upto_update_id (some back) s =
      if ltb back.from_update_id from_update_id
      then ok (full_diff s)
      else after_upto start upto_update_id
          (scan_upto upto_update_id (reverse (enumerate 0 s.diffs))) s

  unfoldable pub after_from : ℕ → ℕ → Scan → StateMap K T R → Outcome ⊥ (Diff K T)
  unfolding check_back
  after_from from_update_id upto_update_id (break_at idx) s =
      check_back idx from_update_id upto_update_id (get_last? s.diffs) s
  after_from from_update_id upto_update_id (return_at idx) s = ok (full_diff s)
  after_from from_update_id upto_update_id finished s =
      check_back 0 from_update_id upto_update_id (get_last? s.diffs) s

  unfoldable pub get_diff : ℕ → ℕ → StateMap K T R → Outcome ⊥ (Diff K T)
  unfolding after_from scan_from
  get_diff from_update_id upto_update_id s =
      after_from from_update_id upto_update_id (scan_from from_update_id (enumerate 0 s.diffs)) s
