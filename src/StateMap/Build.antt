-- ===== src/StateMap/Build.antt =====
-- Building a state map: `new`, `push` and `set_master`, up to `freeze`.
use syncstate.Prelude.{
  ◌≡◌, refl, sym, ◌∙◌, true, false, some, Bool, List, [], ◌∷◌, ◌++◌, map, Outcome, ok, err, panic,
  arith, ite, append-nil, append_assoc,
}
use syncstate.HashMap.{
  HashMap, Distinct, contains_key, insert, extend, lookup-insert, insert-Distinct,
}
use syncstate.Traits.{StateMapKey}
use syncstate.StateMap.Defs.{StateMap, StateMapError, new, push, set_master, is_frozen, get, frozen}

-- The keys of a list of entries.
abbrev pub keys {ℓ} : {K T : Type ℓ} → List (K × T) → List K
keys = map (λ e. e.0)

module _ {ℓ} {K T : Type ℓ} ⦃key : StateMapKey K⦄ where
  -- Every listed key has a value.
  abbrev pub Listed : List K → HashMap K T → Type 0
  Listed [] m = Unit
  Listed (x ∷ xs) m = (contains_key key.eq_dec x m ≡ true) × Listed xs m

  Listed-insert :
      (xs : List K) (k : K) (v : T) (m : HashMap K T)
      → Listed xs m
      → Listed (xs ++ k ∷ []) (insert key.eq_dec k v m)
  Listed-insert [] k v m h = (ground (arith, lookup-insert key.eq_dec k k v m), tt)
  Listed-insert (x ∷ xs) k v m h =
      (ground (arith, lookup-insert key.eq_dec x k v m), Listed-insert xs k v m h.1)

module _ {ℓ} {K T R : Type ℓ} ⦃key : StateMapKey K⦄ where
  -- `.expect(…)`, and on with the state map.
  abbrev expect_then :
      Outcome StateMapError (Unit {0}) × StateMap K T R
      → (StateMap K T R → Outcome StateMapError (Unit {0}) × StateMap K T R)
      → Outcome StateMapError (Unit {0}) × StateMap K T R
  expect_then (ok done, s) next = next s
  expect_then (err e, s) next = (panic, s)
  expect_then (panic, s) next = (panic, s)

  -- `for (k, v) in l { s.push(k, v).expect(…) }`, the loop of src/tcp/server.rs
  unfoldable pub push_all :
      List (K × T) → StateMap K T R → Outcome StateMapError (Unit {0}) × StateMap K T R
  push_all [] s = (ok tt, s)
  push_all ((k, v) ∷ l) s = expect_then (push k v s) (push_all l)

  pub record IsFresh (s : StateMap K T R) : Type ℓ where
    pub unfrozen : is_frozen s ≡ false
    pub no_updates : s.update_id ≡ 0
    pub no_diffs : s.diffs ≡ []
    pub distinct : Distinct key.eq_dec s.contents
    pub listed : Listed s.order s.contents

  pub new-IsFresh : (remote : R) → IsFresh (new remote)
  unfolding new is_frozen
  new-IsFresh remote = record {
    unfrozen = refl;
    no_updates = refl;
    no_diffs = refl;
    distinct = tt;
    listed = tt;
  }

  -- Before it is frozen a map takes every push, and reads as the push says.
  pub push_lem :
      (k : K) (v : T) (s : StateMap K T R)
      → IsFresh s
      → ((push k v s).0 ≡ ok tt)
        × IsFresh (push k v s).1
        × ((q : K) → get q (push k v s).1 ≡ ite (key.eq_dec q k) (some v) (get q s))
  unfolding push is_frozen get
  push_lem k v s h =
      rw (h.unfrozen, push)
        (
          refl,
          record {
            unfrozen = h.unfrozen;
            no_updates = h.no_updates;
            no_diffs = h.no_diffs;
            distinct = insert-Distinct key.eq_dec k v s.contents h.distinct;
            listed = Listed-insert s.order k v s.contents h.listed;
          },
          λ q. lookup-insert key.eq_dec q k v s.contents,
        )

  pub set_master-IsFresh :
      (b : Bool) (s : StateMap K T R)
      → IsFresh s
      → ((set_master b s).0 ≡ ok tt)
        × IsFresh (set_master b s).1
        × ((set_master b s).1.is_master ≡ b)
  unfolding set_master is_frozen
  set_master-IsFresh b s h =
      rw (h.unfrozen, set_master)
        (
          refl,
          record {
            unfrozen = h.unfrozen;
            no_updates = h.no_updates;
            no_diffs = h.no_diffs;
            distinct = h.distinct;
            listed = h.listed;
          },
          refl,
        )

  -- After `freeze` no key can be added and the role cannot change.
  pub frozen_refuses :
      (k : K) (v : T) (b : Bool) (s : StateMap K T R)
      → is_frozen s ≡ true
      → (push k v s ≡ (err frozen, s)) × (set_master b s ≡ (err frozen, s))
  unfolding push set_master is_frozen
  frozen_refuses k v b s h = rw h (refl, refl)

  pub push-eq :
      (k : K) (v : T) (s : StateMap K T R)
      → is_frozen s ≡ false
      → push k v s ≡ (
        ok tt,
        record s { contents = insert key.eq_dec k v s.contents; order = s.order ++ k ∷ [] },
      )
  unfolding push is_frozen
  push-eq k v s h = rw (h, push)

  pub push_all-eq :
      (l : List (K × T)) (s : StateMap K T R)
      → is_frozen s ≡ false
      → push_all l s
        ≡ (ok tt, record s { contents = extend key.eq_dec s.contents l; order = s.order ++ keys l })
  unfolding push_all extend is_frozen
  push_all-eq [] s h = λ i. (ok tt, record s { order = sym (append-nil s.order) i })
  push_all-eq ((k, v) ∷ l) s h = rw (push-eq k v s h) (
      push_all-eq l
        (record s { contents = insert key.eq_dec k v s.contents; order = s.order ++ k ∷ [] }) h
      ∙ (λ i. (
        ok tt,
        record s {
          contents = extend key.eq_dec (insert key.eq_dec k v s.contents) l;
          order = append_assoc s.order (k ∷ []) (keys l) i;
        },
      )))

  pub push_all_lem :
      (l : List (K × T)) (s : StateMap K T R)
      → IsFresh s
      → ((push_all l s).0 ≡ ok tt) × IsFresh (push_all l s).1
  unfolding push_all
  push_all_lem [] s h = (refl, h)
  push_all_lem ((k, v) ∷ l) s h =
      let (pushed, fresh, reads) = push_lem k v s h in
      rw pushed (push_all_lem l (push k v s).1 fresh)

  pub set_master-eq :
      (s : StateMap K T R) → IsFresh s → set_master true s ≡ (ok tt, record s { is_master = true })
  unfolding set_master is_frozen
  set_master-eq s h = rw (h.unfrozen, set_master)
