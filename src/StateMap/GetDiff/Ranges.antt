-- ===== src/StateMap/GetDiff/Ranges.antt =====
-- What `get_diff` returns on the history of a master, for every pair of update ids.
use syncstate.Prelude.{
  ℕ, zero, suc, ◌+◌, ◌-◌, ◌<◌, ◌≤◌, min, ◌≡◌, ◌∙◌, ◌⊎◌, inl, inr, List, length, take, drop, ok,
  panic, arith, leb, ltb, true, false, Bool-cases, leb→le, if◌then◌else◌,
}
use syncstate.HashMap.{IterOrder}
use syncstate.Traits.{StateMapKey}
use syncstate.Diff
use syncstate.Diff.{Diff}
use syncstate.StateMap.Defs.{StateMap, full_diff}
use syncstate.StateMap.History.{IsHistory, IsHistory-length, head-IsHistory}
use syncstate.StateMap.GetDiff.{
  break_at, return_at, get_diff, after_from, check_back, after_upto, finish, merge_range, range,
}
use syncstate.StateMap.GetDiff.Scans.{
  start_of, scan_from-enumerate, scan_from-enumerate_end, get_last-IsHistory, scan_upto-IsHistory,
}

-- The part of a history from an index up to an update id.
abbrev pub stretch {ℓ} : {K T : Type ℓ} → ℕ → ℕ → List (Diff K T) → List (Diff K T)
stretch start upto ds = take (upto + 1 - start) (drop start ds)

start_of-le : (f u n : ℕ) → (f < n) ⊎ (f ≡ 0) → f ≤ u → start_of f ≤ min u n + 1
start_of-le zero u n p q = omega arith
start_of-le (suc f) u n p q = omega arith

module _ {ℓ} {K T R : Type ℓ} ⦃key : StateMapKey K⦄ ⦃order : IterOrder K T key.eq_dec⦄
    (s : StateMap K T R) (h : IsHistory s.diffs s.update_id) where
  -- The second loop and the range, once the first loop has left `start`.
  upto_lem :
      (start u : ℕ)
      → after_upto start u (if leb u s.update_id then break_at u else return_at s.update_id) s
        ≡ merge_range start (min u s.update_id) s
  unfolding after_upto finish
  upto_lem start u =
      let (d, e, z) = head-IsHistory s.diffs s.update_id h in
      let back : ltb u d.upto_update_id ≡ false = ground arith in
      elim (Bool-cases (leb u s.update_id)) [
        | inl p ↦
            let low : min u s.update_id ≡ u = omega (arith, leb→le u s.update_id p) in
            rw (p, low, e, finish) (rw back)
        | inr p ↦ let high : min u s.update_id ≡ s.update_id = ground arith in rw (p, high)
      ]

  merge_range_ok :
      (start end : ℕ)
      → start ≤ end + 1
      → end ≤ s.update_id
      → merge_range start end s ≡ ok (Diff.merge (stretch start end s.diffs))
  unfolding merge_range range
  merge_range_ok start end p q =
      let n : length s.diffs ≡ suc s.update_id = IsHistory-length s.diffs s.update_id h in
      ground arith

  merge_range_panic : (start end : ℕ) → end + 1 < start → merge_range start end s ≡ panic
  unfolding merge_range range
  merge_range_panic start end p = ground arith

  -- The first loop, where it finds the diff to start from.
  from_lem :
      (f u : ℕ)
      → (f < s.update_id) ⊎ (f ≡ 0)
      → get_diff f u s ≡ merge_range (start_of f) (min u s.update_id) s
  unfolding get_diff after_from check_back
  from_lem f u p =
      let (b, last, starts) = get_last-IsHistory s.diffs s.update_id h in
      let scanned = scan_upto-IsHistory u s.diffs s.update_id h in
      let full : ltb b.from_update_id f ≡ false = ground arith in
      rw (scan_from-enumerate f s.diffs s.update_id h p, last, check_back)
        (rw (full, scanned) (upto_lem (start_of f) u))

  -- Between two ids that the history knows, the diffs of the steps between them are merged. From 0
  -- on the opening diff is merged too. An `upto_update_id` past the current id stands for it.
  pub get_diff-stretch :
      (f u : ℕ)
      → (f < s.update_id) ⊎ (f ≡ 0)
      → f ≤ u
      → get_diff f u s ≡ ok (Diff.merge (stretch (start_of f) (min u s.update_id) s.diffs))
  get_diff-stretch f u p q =
      from_lem f u p
      ∙ merge_range_ok (start_of f) (min u s.update_id) (start_of-le f u s.update_id p q)
          (omega arith)

  -- A request from an update id that is at least 1, and that is the current id of a master or later,
  -- is answered with the whole contents, as a full diff.
  pub get_diff-full : (f u : ℕ) → s.update_id ≤ suc f → get_diff (suc f) u s ≡ ok (full_diff s)
  unfolding get_diff after_from check_back
  get_diff-full f u p =
      let (b, last, starts) = get_last-IsHistory s.diffs s.update_id h in
      let behind : ltb b.from_update_id (suc f) ≡ true = ground arith in
      rw (scan_from-enumerate_end f s.diffs s.update_id h p, last, check_back) (rw behind)

  -- A request that starts at an update id before the master's current one and asks for an id before
  -- its start makes `get_diff` panic: the range of diffs is out of order.
  pub get_diff-backwards : (f u : ℕ) → f < s.update_id → u < f → get_diff f u s ≡ panic
  get_diff-backwards zero u p q = absurd (omega arith)
  get_diff-backwards (suc f) u p q =
      from_lem (suc f) u (inl p) ∙ merge_range_panic _ (min u s.update_id) (omega arith)
