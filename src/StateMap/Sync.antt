-- ===== src/StateMap/Sync.antt =====
-- A slave that applies what `get_diff` of its master returns.
use syncstate.Prelude.{
  ℕ, zero, suc, ◌+◌, ◌-◌, ◌<◌, ◌≤◌, min, max, ◌≡◌, refl, sym, ap, subst, dec_lt, ◌∙◌, ◌⊎◌, inl, inr,
  List, [], ◌∷◌, ◌++◌, lookup, take, drop, ok, arith, or_else, or_else-absorb, or_else_idem,
  take-split, take_of_length-le,
}
use syncstate.HashMap.{
  HashMap, IterOrder, extend, last_write, last_write-append, lookup-extend-iter,
}
use syncstate.Traits.{StateMapKey}
use syncstate.Diff
use syncstate.Diff.{
  lookup-replay_nil, Diff, writes, writes-append, replay, replay-append, lookup-replay, ids-merge,
  lookup-extend-merge, lowest, highest, u64_max,
}
use syncstate.StateMap.Defs.{StateMap, full_diff, into_iter, get_update_id}
use syncstate.StateMap.History.{Chain, IsHistory, IsHistory-length, IsMaster, snapshot}
use syncstate.StateMap.History.Ids.{
  drop-Chain, take-Chain, lowest-le, lowest-le-Chain, highest-Chain,
}
use syncstate.StateMap.GetDiff.{get_diff}
use syncstate.StateMap.GetDiff.Scans.{start_of}
use syncstate.StateMap.GetDiff.Ranges.{stretch, get_diff-stretch, get_diff-full}

module _ {ℓ} {K T : Type ℓ} ⦃key : StateMapKey K⦄ where
  -- Every key has the same value in both.
  abbrev pub SameContents : HashMap K T → HashMap K T → Type ℓ
  SameContents m m' = (q : K) → lookup key.eq_dec q m ≡ lookup key.eq_dec q m'

  pub replay-SameContents :
      (m m' : HashMap K T) (ds : List (Diff K T))
      → SameContents m m'
      → SameContents (replay m ds) (replay m' ds)
  replay-SameContents m m' ds h q =
      lookup-replay q m ds
      ∙ ap (or_else (last_write key.eq_dec q (writes ds))) (h q)
      ∙ sym (lookup-replay q m' ds)

  -- Replaying a history over one of its own prefixes.
  replay-prefix :
      (m : HashMap K T) (ds es : List (Diff K T))
      → SameContents m (replay [] ds)
      → SameContents (replay m (ds ++ es)) (replay [] (ds ++ es))
  replay-prefix m ds es h q =
      replay-SameContents m (replay [] ds) (ds ++ es) h q
      ∙ lookup-replay q (replay [] ds) (ds ++ es)
      ∙ rw
          (
            lookup-replay_nil q ds,
            lookup-replay_nil q (ds ++ es),
            writes-append ds es,
            last_write-append key.eq_dec q (writes ds) (writes es),
          )
          (or_else-absorb (last_write key.eq_dec q (writes es))
            (last_write key.eq_dec q (writes ds)))

  -- The stretch that starts at an index after the prefix, or at its beginning.
  replay-stretch :
      (m : HashMap K T) (f v : ℕ) (ds : List (Diff K T))
      → f ≤ v
      → SameContents m (replay [] (take (suc f) ds))
      → SameContents (replay m (stretch (start_of f) v ds)) (replay [] (take (suc v) ds))
  replay-stretch m zero v ds p h q =
      let width : v + 1 - 0 ≡ suc v = omega arith in
      rw (width, take-split 1 (suc v) ds (omega arith)) (replay-prefix m (take 1 ds) _ h q)
  replay-stretch m (suc f) v ds p h q =
      let width : v + 1 - suc (suc f) ≡ suc v - suc (suc f) = omega arith in
      rw (width, take-split (suc (suc f)) (suc v) ds (omega arith), replay-append)
        (replay-SameContents m (replay [] (take (suc (suc f)) ds)) _ h q)

module _ {ℓ} {K T : Type ℓ} where
  -- The ids that the merge of a stretch is given.
  stretch-ids :
      (f v n : ℕ) (ds : List (Diff K T))
      → IsHistory ds n
      → (f < v) ⊎ (f ≡ 0)
      → f ≤ n
      → v ≤ n
      → (lowest u64_max (stretch (start_of f) v ds) ≤ f)
        × (highest 0 (stretch (start_of f) v ds) ≡ v)
  unfolding lowest highest
  stretch-ids f v n [] h p q r = absurd h
  stretch-ids zero zero n (d ∷ ds) h p q r = omega arith
  stretch-ids zero (suc v) n (d ∷ ds) h p q r =
      let width : suc v + 1 - 0 ≡ suc (suc v) = omega arith in
      let between = take-Chain (suc v) 0 ds n h.2 (omega arith) in
      let end : 0 + suc v ≡ suc v = omega arith in
      rw width (
        omega (arith, lowest-le (min u64_max d.from_update_id) (take (suc v) ds)),
        highest-Chain (max 0 d.upto_update_id) 0 (take (suc v) ds) (suc v)
            (subst (λ k. Chain 0 (take (suc v) ds) k) end between) (omega arith) (omega arith),
      )
  stretch-ids (suc f) v n (d ∷ ds) h p q r =
      let width : v + 1 - suc (suc f) ≡ v - suc f = omega arith in
      let from : 0 + suc f ≡ suc f = omega arith in
      let upto : suc f + (v - suc f) ≡ v = omega arith in
      let after : Chain (suc f) (drop (suc f) ds) n =
        subst (λ k. Chain k (drop (suc f) ds) n) from
          (drop-Chain (suc f) 0 ds n h.2 (omega arith)) in
      let between : Chain (suc f) (take (v - suc f) (drop (suc f) ds)) v =
        subst (Chain (suc f) (take (v - suc f) (drop (suc f) ds))) upto
          (take-Chain (v - suc f) (suc f) (drop (suc f) ds) n after (omega arith)) in
      rw width (
        lowest-le-Chain u64_max (suc f) (take (v - suc f) (drop (suc f) ds)) v between
            (omega arith),
        highest-Chain 0 (suc f) (take (v - suc f) (drop (suc f) ds)) v between (omega arith)
            (omega arith),
      )

module _ {ℓ} {K T R : Type ℓ} ⦃key : StateMapKey K⦄ where
  -- The contents of a master are those at its own id.
  pub snapshot_now :
      (s : StateMap K T R) → IsMaster s → SameContents s.contents (snapshot s s.update_id)
  unfolding snapshot
  snapshot_now s h q =
      let n = IsHistory-length s.diffs s.update_id h.history in
      rw (take_of_length-le s.diffs (suc s.update_id) (omega arith)) (h.current q)

module _ {ℓ} {K T R : Type ℓ} ⦃key : StateMapKey K⦄ ⦃order : IterOrder K T key.eq_dec⦄
    (s : StateMap K T R) (h : IsMaster s) (m : HashMap K T) where
  -- The master has a diff for a slave, which brings it to an update id.
  pub record Brings (f u : ℕ) (d : Diff K T) : Type ℓ where
    pub answered : get_diff f u s ≡ ok d
    pub starts : d.from_update_id ≤ f
    pub ends : d.upto_update_id ≡ min u s.update_id
    pub effect : SameContents (extend key.eq_dec m d.diff) (snapshot s (min u s.update_id))

  sync_stretch :
      (f u : ℕ)
      → (f < s.update_id) ⊎ (f ≡ 0)
      → f < u
      → SameContents m (snapshot s f)
      → Brings f u (Diff.merge (stretch (start_of f) (min u s.update_id) s.diffs))
  unfolding snapshot
  sync_stretch f u p q same =
      let v : ℕ = min u s.update_id in
      let part = stretch (start_of f) v s.diffs in
      let ids =
        stretch-ids f v s.update_id s.diffs h.history (ground arith) (ground arith) (omega arith) in
      record {
        answered = get_diff-stretch s h.history f u p (omega arith);
        starts = rw ((ids-merge part).0) ids.0;
        ends = (ids-merge part).1 ∙ ids.1;
        effect =
            λ k. lookup-extend-merge k m part ∙ replay-stretch m f v s.diffs (omega arith) same k;
      }

  sync_full :
      (f u : ℕ)
      → s.update_id ≡ suc f
      → suc f < u
      → SameContents m (snapshot s (suc f))
      → Brings (suc f) u (full_diff s)
  unfolding full_diff into_iter get_update_id Diff.new
  sync_full f u p q same =
      let now : min u s.update_id ≡ s.update_id = omega arith in
      record {
        answered = get_diff-full s h.history f u (omega arith);
        starts = omega arith;
        ends = sym now;
        effect = λ k.
            lookup-extend-iter order k s.contents m h.distinct
            ∙ ap (or_else (lookup key.eq_dec k s.contents)) (
                same k
                ∙ ap (λ i. lookup key.eq_dec k (snapshot s i)) (sym p)
                ∙ sym (snapshot_now s h k))
            ∙ or_else_idem (lookup key.eq_dec k s.contents)
            ∙ snapshot_now s h k
            ∙ ap (λ i. lookup key.eq_dec k (snapshot s i)) (sym now);
      }

  -- For contents that agree with a master at an id `f` up to its current one, and a later id `u`,
  -- `get_diff` of the master returns a diff that starts at `f` or before, ends at `u` or at the
  -- master's id if that is smaller, and makes the contents agree with the master at that id.
  pub sync_lem :
      (f u : ℕ)
      → f ≤ s.update_id
      → f < u
      → SameContents m (snapshot s f)
      → (d : Diff K T) × Brings f u d
  sync_lem zero u p q same = (_, sync_stretch 0 u (inr refl) q same)
  sync_lem (suc f) u p q same = elim (dec_lt (suc f) s.update_id) [
    | yes lt ↦ (_, sync_stretch (suc f) u (inl lt) q same)
    | no ge ↦ (full_diff s, sync_full f u (omega arith) q same)
  ]
