-- ===== src/StateMap/EarlySet.antt =====
-- `set` on a map that is not frozen yet.
use syncstate.Prelude.{
  ℕ, suc, ◌+◌, ◌-◌, ◌++◌, length, take, drop, take_of_length-le, ◌<◌, ◌≤◌, min, ◌≡◌, inl, inr, refl,
  ap, sym, ◌∙◌, true, false, some, none, List, [], ◌∷◌, lookup, ok, arith, or_else, subst, u64_mod,
  u64_inc_lem, u64_dec-u64_inc, Option, is_some,
}
use syncstate.HashMap.{
  HashMap, IterOrder, contains_key, insert, last_write, last_write-append, lookup-insert,
}
use syncstate.Traits.{StateMapKey, StateMapValue}
use syncstate.Diff
use syncstate.Diff.{Diff, writes, replay, lookup-replay, lookup-replay_nil, lookup-extend-merge}
use syncstate.Sort.{sort}
use syncstate.StateMap.Defs.{StateMap, Remote, Hash, is_frozen}
use syncstate.StateMap.Build.{IsFresh, Listed}
use syncstate.StateMap.Freeze.{Sha256, freeze}
use syncstate.StateMap.Freeze.Laws.{hash_input_total, sort-Listed}
use syncstate.StateMap.GetDiff.{get_diff}
use syncstate.StateMap.GetDiff.Scans.{start_of}
use syncstate.StateMap.GetDiff.Ranges.{stretch, get_diff-stretch}
use syncstate.StateMap.History.{IsMaster, IsHistory-length}
use syncstate.StateMap.History.Grow.{grown}
use syncstate.StateMap.Modify.{set, insert_existing, record_change}
use syncstate.StateMap.Modify.Master.{one_write}
use syncstate.StateMap.Update.{set_update_id}
use syncstate.StateMap.Update.Slave.{set_update_id_cases}

not_some {ℓ} : {A : Type ℓ} (o : Option A) → is_some o ≡ false → o ≡ none
not_some none h = refl
not_some (some a) h = absurd cc

module _ {ℓ} {K T : Type ℓ} ⦃key : StateMapKey K⦄ where
  Listed-kept :
      (xs : List K) (k : K) (v : T) (m : HashMap K T)
      → Listed xs m
      → Listed xs (insert key.eq_dec k v m)
  Listed-kept [] k v m h = tt
  Listed-kept (x ∷ xs) k v m h =
      (ground (arith, lookup-insert key.eq_dec x k v m), Listed-kept xs k v m h.1)

module _ {ℓ} {K T R : Type ℓ} ⦃key : StateMapKey K⦄ where
  set-early :
      (k : K) (v : T) (s : StateMap K T R)
      → IsFresh s
      → contains_key key.eq_dec k s.contents ≡ true
      → set k v s ≡ (ok tt, grown s (insert key.eq_dec k v s.contents) (one_write k v s.update_id))
  unfolding set is_frozen insert_existing record_change
  set-early k v s h here =
      let first : s.update_id + 1 < u64_mod = omega (arith, h.no_updates) in
      let unfrozen : is_some s.hash ≡ false = h.unfrozen in
      ground (arith, u64_inc_lem s.update_id, u64_dec-u64_inc s.update_id)

module _ {ℓ} {K T R W : Type ℓ} ⦃key : StateMapKey K⦄ ⦃value : StateMapValue T⦄ ⦃sha : Sha256⦄
    ⦃order : IterOrder K T key.eq_dec⦄ (remotes : Remote K T R W) where
  -- What `freeze` keeps of a map that was not frozen.
  record IsHashed (s t : StateMap K T R) : Type ℓ where
    digest : Hash
    hashed : t.hash ≡ some digest
    same_id : t.update_id ≡ s.update_id
    same_contents : t.contents ≡ s.contents
    same_remote : t.remote ≡ s.remote

  freeze-IsHashed :
      (s : StateMap K T R) (w : W)
      → s.hash ≡ none
      → Listed s.order s.contents
      → IsHashed s (freeze remotes s w).1
  unfolding freeze
  freeze-IsHashed s w open_hash listed =
      let (bytes, e) =
        hash_input_total (sort s.order) s.contents (sort-Listed s.order s.contents listed) in
      rw (open_hash, freeze)
        (rw e (record {
          digest = sha.digest bytes;
          hashed = refl;
          same_id = refl;
          same_contents = refl;
          same_remote = refl;
        }))

  early-IsHashed :
      (k : K) (v : T) (s : StateMap K T R) (w : W)
      → IsFresh s
      → contains_key key.eq_dec k s.contents ≡ true
      → IsHashed
          (grown s (insert key.eq_dec k v s.contents) (one_write k v s.update_id))
          (freeze remotes (set k v s).1 w).1
  unfolding is_frozen
  early-IsHashed k v s w h here =
      let written = grown s (insert key.eq_dec k v s.contents) (one_write k v s.update_id) in
      subst (λ x. IsHashed written (freeze remotes x.1 w).1) (sym (set-early k v s h here))
        (freeze-IsHashed written w (not_some s.hash h.unfrozen)
          (Listed-kept s.order k v s.contents h.listed))

module _ {ℓ} {K T R R' W : Type ℓ} ⦃key : StateMapKey K⦄ ⦃order : IterOrder K T key.eq_dec⦄
    (remotes : Remote K T R W) (m : StateMap K T R') (is_master : IsMaster m) (d0 d1 : Diff K T)
    (ds : List (Diff K T)) (history : m.diffs ≡ d0 ∷ d1 ∷ ds) where
  later-length : m.update_id ≡ suc (length ds)
  later-length =
      omega (arith, IsHistory-length m.diffs m.update_id is_master.history, ap length history)

  -- From the first update on all later diffs are sent.
  later-stretch : (u : ℕ) → m.update_id ≤ u → stretch (start_of 1) (min u m.update_id) m.diffs ≡ ds
  later-stretch u all =
      let width : min u m.update_id + 1 - 2 ≡ length ds = omega (arith, later-length) in
      ap (λ n. take n (drop 2 m.diffs)) width
      ∙ ap (λ l. take (length ds) (drop 2 l)) history
      ∙ take_of_length-le ds (length ds) (omega arith)

  -- A key that the first update wrote, and no later one.
  module _ (q : K) (x : T) (wrote : last_write key.eq_dec q d1.diff ≡ some x)
      (kept : last_write key.eq_dec q (writes ds) ≡ none) where
    master_reads : lookup key.eq_dec q m.contents ≡ some x
    unfolding writes
    master_reads =
        is_master.current q
        ∙ lookup-replay_nil q m.diffs
        ∙ ap (λ l. last_write key.eq_dec q (writes l)) history
        ∙ last_write-append key.eq_dec q d0.diff (d1.diff ++ writes ds)
        ∙ ap (λ o. or_else o (last_write key.eq_dec q d0.diff))
            (last_write-append key.eq_dec q d1.diff (writes ds)
              ∙ ap (λ o. or_else o (last_write key.eq_dec q d1.diff)) kept
              ∙ wrote)

    slave_reads :
        (t : StateMap K T R) (u : ℕ) (w : W) (h : Hash)
        → t.hash ≡ some h
        → t.update_id ≡ 1
        → 2 ≤ m.update_id
        → m.update_id ≤ u
        → ((d : Diff K T)
            → get_diff 1 u m ≡ ok d
            → (remotes.fetch_updates t.remote t.update_id u h w).0 ≡ ok d)
        → lookup key.eq_dec q (set_update_id remotes u t w).1.contents
          ≡ lookup key.eq_dec q t.contents
    slave_reads t u w h hashed early more all served =
        let sent = Diff.merge (stretch (start_of 1) (min u m.update_id) m.diffs) in
        let answered : get_diff 1 u m ≡ ok sent =
          get_diff-stretch m is_master.history 1 u (inl (omega arith)) (omega arith) in
        elim (set_update_id_cases remotes u t w h sent (omega arith) hashed
          (served sent answered)) [
            | inl (_, _, same) ↦ ap (λ s. lookup key.eq_dec q s.contents) same
            | inr (inl (_, _, _, same)) ↦ ap (λ s. lookup key.eq_dec q s.contents) same
            | inr (inr (_, _, _, taken)) ↦
                ap (λ s. lookup key.eq_dec q s.contents) taken
                ∙ lookup-extend-merge q t.contents
                    (stretch (start_of 1) (min u m.update_id) m.diffs)
                ∙ ap (λ l. lookup key.eq_dec q (replay t.contents l)) (later-stretch u all)
                ∙ lookup-replay q t.contents ds
                ∙ ap (λ o. or_else o (lookup key.eq_dec q t.contents)) kept
          ]

module _ {ℓ} {K T R R' W : Type ℓ} ⦃key : StateMapKey K⦄ ⦃value : StateMapValue T⦄ ⦃sha : Sha256⦄
    ⦃order : IterOrder K T key.eq_dec⦄ (remotes : Remote K T R W) where
  -- A map that is not frozen, has no updates yet and has a value for each key of its order is
  -- written by `set`, at a key that it has, and then frozen; the write counts as an update. Its
  -- remote hands it the diffs of a master with the history `d0`, `d1`, `ds`, at update id 2 or
  -- later. The first update of the master, `d1`, writes `x` to a key `q` that no later one writes.
  -- When the slave has asked for all updates, it reads at `q` what it read when it was frozen,
  -- while the master reads `x`.
  pub early_set_misses :
      (s : StateMap K T R) (k : K) (v : T) (m : StateMap K T R') (d0 d1 : Diff K T)
      (ds : List (Diff K T)) (q : K) (x : T) (u : ℕ) (w w' : W)
      → IsFresh s
      → contains_key key.eq_dec k s.contents ≡ true
      → IsMaster m
      → m.diffs ≡ d0 ∷ d1 ∷ ds
      → last_write key.eq_dec q d1.diff ≡ some x
      → last_write key.eq_dec q (writes ds) ≡ none
      → 2 ≤ m.update_id
      → m.update_id ≤ u
      → ((h : Hash) (d : Diff K T)
          → (freeze remotes (set k v s).1 w).1.hash ≡ some h
          → get_diff 1 u m ≡ ok d
          → (remotes.fetch_updates s.remote 1 u h w').0 ≡ ok d)
      → (lookup key.eq_dec q
            (set_update_id remotes u (freeze remotes (set k v s).1 w).1 w').1.contents
          ≡ lookup key.eq_dec q (insert key.eq_dec k v s.contents))
        × (lookup key.eq_dec q m.contents ≡ some x)
  early_set_misses s k v m d0 d1 ds q x u w w' fresh here is_master history wrote kept more all
        served =
      let t = (freeze remotes (set k v s).1 w).1 in
      let hashed = early-IsHashed remotes k v s w fresh here in
      let early : t.update_id ≡ 1 = omega (arith, hashed.same_id, fresh.no_updates) in
      (
        slave_reads remotes m is_master d0 d1 ds history q x wrote kept t u w' hashed.digest
              hashed.hashed early more all
              (λ d e.
                ap (λ r. (remotes.fetch_updates r t.update_id u hashed.digest w').0)
                  hashed.same_remote
                ∙ ap (λ n. (remotes.fetch_updates s.remote n u hashed.digest w').0) early
                ∙ served hashed.digest d hashed.hashed e)
            ∙ ap (lookup key.eq_dec q) hashed.same_contents,
        master_reads remotes m is_master d0 d1 ds history q x wrote kept,
      )
