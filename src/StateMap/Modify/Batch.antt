-- ===== src/StateMap/Modify/Batch.antt =====
-- `StateMapModifier`: a batch of writes is one update.
use syncstate.Prelude.{
  ℕ, suc, ◌+◌, ◌<◌, ◌≤◌, ◌≡◌, ◌⊎◌, refl, sym, ap, ◌∙◌, true, false, none, some, List, [], ◌∷◌,
  lookup, inl, inr, not, ◌||◌, if_pos, Bool-cases, Option-cases, ok, err, arith, ite, is_some,
  u64_mod, u64_dec, u64_inc_lem, u64_dec-u64_inc,
}
use syncstate.HashMap.{
  HashMap, IterOrder, Distinct, contains_key, insert, extend, lookup-insert, insert-Distinct,
  extend-Distinct, lookup-extend-iter,
}
use syncstate.Traits.{StateMapKey}
use syncstate.Diff.{Diff}
use syncstate.StateMap.Defs.{StateMap, is_frozen, get, frozen, key_not_found}
use syncstate.StateMap.Modify.{
  StateMapModifier, new_modifier, begin_modification, modifier_get, modifier_set, commit,
  commit_loop, record_change,
}
use syncstate.StateMap.History.{IsMaster, snapshot}
use syncstate.StateMap.History.Grow.{grown, grown-IsMaster, snapshot-grown}

module _ {ℓ} {K T : Type ℓ} (dec : Discrete K) where
  -- Every key that is written is there.
  abbrev pub Covered : List (K × T) → HashMap K T → Type 0
  Covered [] m = Unit
  Covered (e ∷ l) m = (contains_key dec e.0 m ≡ true) × Covered l m

  Covered-of_contains_key :
      (l : List (K × T)) (m : HashMap K T)
      → ((q : K) → contains_key dec q l ≡ true → contains_key dec q m ≡ true)
      → Covered l m
  unfolding lookup
  Covered-of_contains_key [] m h = tt
  Covered-of_contains_key (e ∷ l) m h = (
    h e.0 (ap is_some (if_pos (dec e.0 e.0) refl _ _)),
    Covered-of_contains_key l m (λ q p. h q (ground arith)),
  )

  insert-Covered :
      (k : K) (v : T) (l : List (K × T)) (m : HashMap K T)
      → Covered l m
      → Covered l (insert dec k v m)
  insert-Covered k v [] m h = tt
  insert-Covered k v (e ∷ l) m h =
      (ground (arith, lookup-insert dec e.0 k v m), insert-Covered k v l m h.1)

module _ {ℓ} {K T R : Type ℓ} ⦃key : StateMapKey K⦄ where
  -- A modifier writes each key at most once, and only keys of its state map.
  pub record IsModifier (mods : StateMapModifier K T R) : Type ℓ where
    pub distinct : Distinct key.eq_dec mods.diff
    pub covered :
        (q : K)
        → contains_key key.eq_dec q mods.diff ≡ true
        → contains_key key.eq_dec q mods.statemap.contents ≡ true

  -- `begin_modification` is refused exactly on a frozen map that is no master; the modifier that it
  -- returns is valid, holds the map as it is, and has no writes.
  pub begin_modification-IsModifier :
      (s : StateMap K T R)
      → ((begin_modification s ≡ err frozen) × (is_frozen s ≡ true) × (s.is_master ≡ false))
        ⊎ ((mods : StateMapModifier K T R) × (begin_modification s ≡ ok mods)
            × (mods.statemap ≡ s)
            × IsModifier mods
            × ((q : K) → modifier_get q mods ≡ get q s))
  unfolding begin_modification modifier_get lookup
  begin_modification-IsModifier s = elim (Bool-cases (not (is_some s.hash) || s.is_master)) [
    | inl may ↦
        inr (new_modifier s, rw may, refl, record { distinct = tt; covered = λ q h. cc }, λ q. refl)
    | inr refused ↦ inl (rw refused, ground arith, ground arith)
  ]

  -- The modifier after a write that is accepted.
  abbrev written : K → T → StateMapModifier K T R → StateMapModifier K T R
  written k v mods = record mods { diff = insert key.eq_dec k v mods.diff }

  written-IsModifier :
      (k : K) (v : T) (mods : StateMapModifier K T R)
      → IsModifier mods
      → contains_key key.eq_dec k mods.statemap.contents ≡ true
      → IsModifier (written k v mods)
  written-IsModifier k v mods h here = record {
    distinct = insert-Distinct key.eq_dec k v mods.diff h.distinct;
    covered = λ q p. ground (arith, lookup-insert key.eq_dec q k v mods.diff, h.covered q);
  }

  -- `set` on a modifier: the state map stays, an unknown key is refused and changes nothing, and
  -- any other write is what the modifier reads from then on.
  pub modifier_set_lem :
      (k : K) (v : T) (mods : StateMapModifier K T R)
      → IsModifier mods
      → IsModifier (modifier_set k v mods).1
        × ((modifier_set k v mods).1.statemap ≡ mods.statemap)
        × (((get k mods.statemap ≡ none) × (modifier_set k v mods ≡ (err key_not_found, mods)))
            ⊎ (((modifier_set k v mods).0 ≡ ok tt)
                × ((q : K)
                    → modifier_get q (modifier_set k v mods).1
                      ≡ ite (key.eq_dec q k) (some v) (modifier_get q mods))))
  unfolding modifier_set modifier_get get
  modifier_set_lem k v mods h = elim (Option-cases (lookup key.eq_dec k mods.statemap.contents)) [
    | inl e ↦ rw (e, modifier_set) (h, refl, inl (refl, refl))
    | inr (old, e) ↦
        rw (e, modifier_set)
          (
            written-IsModifier k v mods h (rw e),
            refl,
            inr (refl, λ q. ground (arith, lookup-insert key.eq_dec q k v mods.diff)),
          )
  ]

  commit_loop-eq :
      (l : List (K × T)) (s : StateMap K T R)
      → Covered key.eq_dec l s.contents
      → commit_loop l (ok tt, s) ≡ (ok tt, record s { contents = extend key.eq_dec s.contents l })
  unfolding commit_loop extend
  commit_loop-eq [] s h = refl
  commit_loop-eq ((k, v) ∷ l) s h = rw h.0 (
      commit_loop-eq l (record s { contents = insert key.eq_dec k v s.contents })
        (insert-Covered key.eq_dec k v l s.contents h.1))

module _ {ℓ} {K T R : Type ℓ} ⦃key : StateMapKey K⦄ ⦃order : IterOrder K T key.eq_dec⦄ where
  -- The diff of a batch.
  abbrev batch : StateMapModifier K T R → Diff K T
  batch mods = record {
    diff = order.iter mods.diff;
    is_full = false;
    from_update_id = mods.statemap.update_id;
    upto_update_id = suc mods.statemap.update_id;
  }

  commit-grown :
      (mods : StateMapModifier K T R)
      → IsModifier mods
      → mods.statemap.update_id + 1 < u64_mod
      → commit mods ≡ (
        ok tt,
        grown mods.statemap
            (extend key.eq_dec mods.statemap.contents (order.iter mods.diff))
            (batch mods),
      )
  unfolding commit
  commit-grown mods h b =
      let inc = u64_inc_lem mods.statemap.update_id b in
      let dec = ap u64_dec (sym inc) ∙ u64_dec-u64_inc mods.statemap.update_id b in
      let cov =
        Covered-of_contains_key key.eq_dec (order.iter mods.diff) mods.statemap.contents
          (λ q p. h.covered q (rw (order.lookup-iter q mods.diff) at p)) in
      rw
        (
          inc,
          commit_loop-eq (order.iter mods.diff)
              (record mods.statemap { update_id = suc mods.statemap.update_id }) cov,
          record_change,
        )
        (rw dec)

  -- Committing a valid modifier of a master never panics. The map reads as the modifier did, one
  -- update id on; the batch is one diff of the history, and the earlier ids stay as they were.
  pub commit_lem :
      (mods : StateMapModifier K T R)
      → IsModifier mods
      → IsMaster mods.statemap
      → mods.statemap.update_id + 1 < u64_mod
      → ((commit mods).0 ≡ ok tt)
        × IsMaster (commit mods).1
        × ((commit mods).1.update_id ≡ suc mods.statemap.update_id)
        × ((q : K) → get q (commit mods).1 ≡ modifier_get q mods)
        × ((i : ℕ)
            → i ≤ mods.statemap.update_id
            → snapshot (commit mods).1 i ≡ snapshot mods.statemap i)
  unfolding get modifier_get
  commit_lem mods h m b =
      let after = extend key.eq_dec mods.statemap.contents (order.iter mods.diff) in
      rw (commit-grown mods h b) (
        refl,
        grown-IsMaster mods.statemap m after (batch mods) refl refl (λ q. refl)
            (extend-Distinct key.eq_dec mods.statemap.contents (order.iter mods.diff) m.distinct),
        refl,
        λ q. lookup-extend-iter order q mods.diff mods.statemap.contents h.distinct,
        snapshot-grown mods.statemap m after (batch mods) refl refl,
      )
