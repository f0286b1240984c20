-- ===== src/Diff/Merge.antt =====
-- Merged and compressed diffs, and what their parts do in order.
use syncstate.Prelude.{
  ℕ, min, max, ◌≡◌, refl, sym, ap, ◌∙◌, or_else, or_else-none, List, [], ◌∷◌, ◌++◌, false, lookup,
  append_assoc,
}
use syncstate.HashMap.{
  HashMap, IterOrder, Distinct, extend, last_write, lookup-extend, extend-append, extend-Distinct,
  lookup-extend-iter,
}
use syncstate.Traits.{StateMapKey}
use syncstate.Diff.Defs.{Diff, u64_max, new, compress, merge_loop, merge}

module _ {ℓ} {K T : Type ℓ} where
  -- All writes of a sequence of diffs, in order.
  unfoldable pub writes : List (Diff K T) → List (K × T)
  writes [] = []
  writes (d ∷ ds) = d.diff ++ writes ds

  pub writes-append : (ds es : List (Diff K T)) → writes (ds ++ es) ≡ writes ds ++ writes es
  unfolding writes
  writes-append [] es = refl
  writes-append (d ∷ ds) es =
      ap (λ l. d.diff ++ l) (writes-append ds es)
      ∙ sym (append_assoc d.diff (writes ds) (writes es))

  unfoldable pub lowest : ℕ → List (Diff K T) → ℕ
  lowest lo [] = lo
  lowest lo (d ∷ ds) = lowest (min lo d.from_update_id) ds

  unfoldable pub highest : ℕ → List (Diff K T) → ℕ
  highest hi [] = hi
  highest hi (d ∷ ds) = highest (max hi d.upto_update_id) ds

module _ {ℓ} {K T : Type ℓ} ⦃key : StateMapKey K⦄ where
  -- Applying the diffs one after the other.
  unfoldable pub replay : HashMap K T → List (Diff K T) → HashMap K T
  unfolding writes
  replay m ds = extend key.eq_dec m (writes ds)

  pub replay-append :
      (m : HashMap K T) (ds es : List (Diff K T)) → replay m (ds ++ es) ≡ replay (replay m ds) es
  unfolding replay
  replay-append m ds es =
      ap (extend key.eq_dec m) (writes-append ds es)
      ∙ extend-append key.eq_dec m (writes ds) (writes es)

  pub lookup-replay :
      (q : K) (m : HashMap K T) (ds : List (Diff K T))
      → lookup key.eq_dec q (replay m ds)
        ≡ or_else (last_write key.eq_dec q (writes ds)) (lookup key.eq_dec q m)
  unfolding replay
  lookup-replay q m ds = lookup-extend key.eq_dec q m (writes ds)

  lookup-extend_nil :
      (q : K) (l : List (K × T))
      → lookup key.eq_dec q (extend key.eq_dec [] l) ≡ last_write key.eq_dec q l
  unfolding lookup
  lookup-extend_nil q l = lookup-extend key.eq_dec q [] l ∙ or_else-none _

  pub lookup-replay_nil :
      (q : K) (ds : List (Diff K T))
      → lookup key.eq_dec q (replay [] ds) ≡ last_write key.eq_dec q (writes ds)
  unfolding replay
  lookup-replay_nil q ds = lookup-extend_nil q (writes ds)

module _ {ℓ} {K T : Type ℓ} ⦃key : StateMapKey K⦄ ⦃order : IterOrder K T key.eq_dec⦄ where
  -- Writing what a map of writes holds is the writes themselves.
  lookup-extend-collected :
      (q : K) (m : HashMap K T) (l : List (K × T))
      → lookup key.eq_dec q (extend key.eq_dec m (order.iter (extend key.eq_dec [] l)))
        ≡ lookup key.eq_dec q (extend key.eq_dec m l)
  lookup-extend-collected q m l =
      lookup-extend-iter order q (extend key.eq_dec [] l) m (extend-Distinct key.eq_dec [] l tt)
      ∙ ap (λ o. or_else o (lookup key.eq_dec q m)) (lookup-extend_nil q l)
      ∙ sym (lookup-extend key.eq_dec q m l)

  -- A compressed diff keeps the ids and the flag, names no key twice, and sets every key of any
  -- map to the value that the whole diff sets it to.
  pub compress_lem :
      (d : Diff K T)
      → ((q : K) (m : HashMap K T)
          → lookup key.eq_dec q (extend key.eq_dec m (compress d).diff)
            ≡ lookup key.eq_dec q (extend key.eq_dec m d.diff))
        × Distinct key.eq_dec (compress d).diff
        × ((compress d).is_full ≡ d.is_full)
        × ((compress d).from_update_id ≡ d.from_update_id)
        × ((compress d).upto_update_id ≡ d.upto_update_id)
  unfolding compress
  compress_lem d = (
    λ q m. lookup-extend-collected q m d.diff,
    order.iter-Distinct _ (extend-Distinct key.eq_dec [] d.diff tt),
    refl,
    refl,
    refl,
  )

  merge_loop_lem :
      (total : HashMap K T) (lo hi : ℕ) (ds : List (Diff K T))
      → merge_loop total lo hi ds
        ≡ new (order.iter (replay total ds)) false (lowest lo ds) (highest hi ds)
  unfolding merge_loop lowest highest replay writes extend
  merge_loop_lem total lo hi [] = refl
  merge_loop_lem total lo hi (d ∷ ds) =
      merge_loop_lem (extend key.eq_dec total d.diff) (min lo d.from_update_id)
        (max hi d.upto_update_id) ds
      ∙ ap
          (λ m.
            new (order.iter m) false (lowest (min lo d.from_update_id) ds)
              (highest (max hi d.upto_update_id) ds))
          (sym (extend-append key.eq_dec total d.diff (writes ds)))

  pub ids-merge :
      (ds : List (Diff K T))
      → ((merge ds).from_update_id ≡ lowest u64_max ds) × ((merge ds).upto_update_id ≡ highest 0 ds)
  unfolding merge new
  ids-merge ds = rw (merge_loop_lem [] u64_max 0 ds) (refl, refl)

  -- Applying a merged diff is applying its parts in order, on every key.
  pub lookup-extend-merge :
      (q : K) (m : HashMap K T) (ds : List (Diff K T))
      → lookup key.eq_dec q (extend key.eq_dec m (merge ds).diff)
        ≡ lookup key.eq_dec q (replay m ds)
  unfolding merge new replay
  lookup-extend-merge q m ds =
      rw (merge_loop_lem [] u64_max 0 ds) (lookup-extend-collected q m (writes ds))

  -- A merged diff names no key twice.
  pub merge-Distinct : (ds : List (Diff K T)) → Distinct key.eq_dec (merge ds).diff
  unfolding merge new replay
  merge-Distinct ds =
      rw (merge_loop_lem [] u64_max 0 ds)
        (order.iter-Distinct _ (extend-Distinct key.eq_dec [] (writes ds) tt))
