-- ===== src/StateMap/GetDiff/Bounds.antt =====
-- How much `get_diff` returns.
use syncstate.Prelude.{
  ℕ, zero, suc, ◌≤◌, min, ◌≡◌, refl, sym, ap, ◌∙◌, true, inl, inr, List, [], ◌∷◌, lookup, length,
  take, drop, ok, ok_inj, arith, is_some, or_else-none, subst, ltb, Bool-cases,
}
use syncstate.HashMap.{
  IterOrder, Distinct, Distinct-length, contains_key, last_write, last_write-append,
  last_write_of_Distinct, lookup-extend,
}
use syncstate.Traits.{StateMapKey}
use syncstate.Diff
use syncstate.Diff.{Diff, replay, writes, lookup-replay, lookup-replay_nil}
use syncstate.StateMap.Defs.{StateMap, full_diff, into_iter}
use syncstate.StateMap.History.{IsMaster}
use syncstate.StateMap.GetDiff.{get_diff}
use syncstate.StateMap.GetDiff.Scans.{start_of}
use syncstate.StateMap.GetDiff.Ranges.{stretch, get_diff-stretch, get_diff-full, get_diff-backwards}

module _ {ℓ} {K T : Type ℓ} ⦃key : StateMapKey K⦄ where
  -- The diffs write to a key.
  abbrev Written : K → List (Diff K T) → Type 0
  Written q ds = is_some (last_write key.eq_dec q (writes ds)) ≡ true

  Written-take : (q : K) (n : ℕ) (ds : List (Diff K T)) → Written q (take n ds) → Written q ds
  unfolding writes last_write
  Written-take q zero ds h = absurd cc
  Written-take q (suc n) [] h = h
  Written-take q (suc n) (d ∷ ds) h = ground (
    arith,
    Written-take q n ds,
    last_write-append key.eq_dec q d.diff (writes (take n ds)),
    last_write-append key.eq_dec q d.diff (writes ds),
  )

  Written-drop : (q : K) (n : ℕ) (ds : List (Diff K T)) → Written q (drop n ds) → Written q ds
  unfolding writes last_write
  Written-drop q zero ds h = h
  Written-drop q (suc n) [] h = h
  Written-drop q (suc n) (d ∷ ds) h =
      ground (arith, Written-drop q n ds h, last_write-append key.eq_dec q d.diff (writes ds))

module _ {ℓ} {K T : Type ℓ} ⦃key : StateMapKey K⦄ ⦃order : IterOrder K T key.eq_dec⦄ where
  lookup-merge :
      (q : K) (ds : List (Diff K T))
      → lookup key.eq_dec q (Diff.merge ds).diff ≡ last_write key.eq_dec q (writes ds)
  unfolding lookup
  lookup-merge q ds =
      sym (last_write_of_Distinct key.eq_dec q (Diff.merge ds).diff (Diff.merge-Distinct ds))
      ∙ sym (or_else-none _)
      ∙ sym (lookup-extend key.eq_dec q [] (Diff.merge ds).diff)
      ∙ Diff.lookup-extend-merge q [] ds
      ∙ lookup-replay_nil q ds

module _ {ℓ} {K T R : Type ℓ} ⦃key : StateMapKey K⦄ ⦃order : IterOrder K T key.eq_dec⦄
    (s : StateMap K T R) (h : IsMaster s) where
  -- One write for each of some of the keys of the map.
  abbrev pub IsCompact : Diff K T → Type ℓ
  IsCompact d =
      Distinct key.eq_dec d.diff
      × ((q : K)
          → contains_key key.eq_dec q d.diff ≡ true
          → contains_key key.eq_dec q s.contents ≡ true)
      × (length d.diff ≤ length s.contents)

  IsCompact-of_keys :
      (d : Diff K T)
      → Distinct key.eq_dec d.diff
      → ((q : K)
          → contains_key key.eq_dec q d.diff ≡ true
          → contains_key key.eq_dec q s.contents ≡ true)
      → IsCompact d
  IsCompact-of_keys d distinct within =
      (distinct, within, Distinct-length key.eq_dec d.diff s.contents distinct within)

  merge-IsCompact : (start end : ℕ) → IsCompact (Diff.merge (stretch start end s.diffs))
  merge-IsCompact start end =
      let part = stretch start end s.diffs in
      IsCompact-of_keys (Diff.merge part) (Diff.merge-Distinct part) (λ q here.
        ap is_some (h.current q ∙ lookup-replay_nil q s.diffs)
        ∙ Written-drop q start s.diffs
            (Written-take q _ (drop start s.diffs) (ap is_some (sym (lookup-merge q part)) ∙ here)))

  full_diff-IsCompact : IsCompact (full_diff s)
  unfolding full_diff into_iter Diff.new
  full_diff-IsCompact =
      IsCompact-of_keys (full_diff s) (order.iter-Distinct s.contents h.distinct)
        (λ q here. ap is_some (sym (order.lookup-iter q s.contents)) ∙ here)

  IsCompact-of_answer :
      (f u : ℕ) (d d' : Diff K T)
      → get_diff f u s ≡ ok d
      → get_diff f u s ≡ ok d'
      → IsCompact d'
      → IsCompact d
  IsCompact-of_answer f u d d' has known c = subst IsCompact (ok_inj (sym known ∙ has)) c

  -- Whatever a master is asked for, what it returns names no key twice, only keys that it has, and
  -- so has no more entries than the map, however many changes there have been.
  pub get_diff-IsCompact : (f u : ℕ) (d : Diff K T) → get_diff f u s ≡ ok d → IsCompact d
  get_diff-IsCompact zero u d has =
      IsCompact-of_answer 0 u d _ has (get_diff-stretch s h.history 0 u (inr refl) (omega arith))
        (merge-IsCompact (start_of 0) (min u s.update_id))
  get_diff-IsCompact (suc f) u d has = elim (Bool-cases (ltb (suc f) s.update_id)) [
    | inl known ↦ elim (Bool-cases (ltb u (suc f))) [
      | inl back ↦
          absurd (cc (get_diff-backwards s h.history (suc f) u (ground arith) (ground arith), has))
      | inr forth ↦
          IsCompact-of_answer (suc f) u d _ has
            (get_diff-stretch s h.history (suc f) u (inl (ground arith)) (ground arith))
            (merge-IsCompact (start_of (suc f)) (min u s.update_id))
    ]
    | inr now ↦
        IsCompact-of_answer (suc f) u d (full_diff s) has
          (get_diff-full s h.history f u (ground arith)) full_diff-IsCompact
  ]
