-- ===== src/StateMap/Modify/Master.antt =====
-- `set` on every branch, and on a master.
use syncstate.Prelude.{
  ℕ, suc, ◌+◌, ◌<◌, ◌≤◌, ◌≡◌, ◌≢◌, ◌⊎◌, none, panic, refl, true, false, some, [], ◌∷◌, ok, err,
  arith, ite, u64_mod, u64_inc_lem, u64_dec-u64_inc,
}
use syncstate.HashMap.{contains_key, insert, extend, lookup-insert, insert-Distinct}
use syncstate.Traits.{StateMapKey}
use syncstate.Diff.{Diff}
use syncstate.StateMap.Defs.{StateMap, StateMapError, is_frozen, get, frozen, key_not_found}
use syncstate.StateMap.Modify.{set, insert_existing, record_change}
use syncstate.StateMap.History.{IsMaster, snapshot}
use syncstate.StateMap.History.Grow.{grown, grown-IsMaster, snapshot-grown}

-- The diff of one write.
abbrev pub one_write {ℓ} : {K T : Type ℓ} → K → T → ℕ → Diff K T
one_write k v n = record {
  diff = (k, v) ∷ [];
  is_full = false;
  from_update_id = n;
  upto_update_id = suc n;
}

module _ {ℓ} {K T R : Type ℓ} ⦃key : StateMapKey K⦄ where
  -- The assertion in `set` never fails. Where `set` reports an error, nothing has changed, and the
  -- error says why: no such key, or a frozen map that is no master.
  pub set_errors :
      (k : K) (v : T) (s : StateMap K T R)
      → ((set k v s).0 ≢ panic)
        × ((e : StateMapError)
            → (set k v s).0 ≡ err e
            → ((set k v s).1 ≡ s)
              × (((e ≡ key_not_found) × (get k s ≡ none))
                  ⊎ ((e ≡ frozen) × (is_frozen s ≡ true) × (s.is_master ≡ false))))
  unfolding set get is_frozen insert_existing record_change
  set_errors k v s = (ground arith, λ e h. ground arith)

  pub set_missing :
      (k : K) (v : T) (s : StateMap K T R)
      → contains_key key.eq_dec k s.contents ≡ false
      → (set k v s).1 ≡ s
  unfolding set
  set_missing k v s missing = rw missing refl

  set-grown :
      (k : K) (v : T) (s : StateMap K T R)
      → contains_key key.eq_dec k s.contents ≡ true
      → s.is_master ≡ true
      → s.update_id + 1 < u64_mod
      → set k v s ≡ (ok tt, grown s (insert key.eq_dec k v s.contents) (one_write k v s.update_id))
  unfolding set
  set-grown k v s h m b = ground (arith, u64_inc_lem s.update_id, u64_dec-u64_inc s.update_id)

  -- On a master, `set` of a key that is there writes it, under the next update id. The history
  -- grows by the diff of the write, and what it tells of the earlier ids stays.
  pub set_lem :
      (k : K) (v : T) (s : StateMap K T R)
      → IsMaster s
      → contains_key key.eq_dec k s.contents ≡ true
      → s.update_id + 1 < u64_mod
      → ((set k v s).0 ≡ ok tt)
        × IsMaster (set k v s).1
        × ((set k v s).1.update_id ≡ suc s.update_id)
        × ((q : K) → get q (set k v s).1 ≡ ite (key.eq_dec q k) (some v) (get q s))
        × ((i : ℕ) → i ≤ s.update_id → snapshot (set k v s).1 i ≡ snapshot s i)
  unfolding get extend
  set_lem k v s h here b =
      let d = one_write k v s.update_id in
      rw (set-grown k v s here h.master b) (
        refl,
        grown-IsMaster s h (insert key.eq_dec k v s.contents) d refl refl (λ q. refl)
            (insert-Distinct key.eq_dec k v s.contents h.distinct),
        refl,
        λ q. lookup-insert key.eq_dec q k v s.contents,
        snapshot-grown s h (insert key.eq_dec k v s.contents) d refl refl,
      )
