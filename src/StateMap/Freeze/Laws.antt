-- ===== src/StateMap/Freeze/Laws.antt =====
-- `freeze` of a map that was only pushed to, and of a map that is frozen.
use syncstate.Prelude.{
  ℕ, ◌≡◌, refl, ap, sym, ◌∙◌, true, none, some, List, [], ◌∷◌, ◌++◌, lookup, ok, err, map_err,
  arith, Option-cases, inl, inr, Bool-cases, append-nil, or_else-none,
}
use syncstate.HashMap.{HashMap, IterOrder, contains_key, extend, lookup-extend-iter}
use syncstate.Traits.{StateMapKey, StateMapValue}
use syncstate.Sort.{sort, insert_sorted}
use syncstate.Diff.{replay, writes}
use syncstate.StateMap.Defs.{
  StateMap, StateMapError, Remote, is_frozen, get, full_diff, from_dyn_error,
}
use syncstate.StateMap.Build.{Listed, IsFresh}
use syncstate.StateMap.History.{IsMaster}
use syncstate.StateMap.Freeze.{Sha256, hash_input, entry_bytes, freeze}

module _ {ℓ} {K T : Type ℓ} ⦃key : StateMapKey K⦄ where
  insert_sorted-Listed :
      (x : K) (xs : List K) (m : HashMap K T)
      → contains_key key.eq_dec x m ≡ true
      → Listed xs m
      → Listed (insert_sorted x xs) m
  unfolding insert_sorted
  insert_sorted-Listed x [] m h hs = (h, tt)
  insert_sorted-Listed x (y ∷ xs) m h hs = elim (Bool-cases (key.leb x y)) [
    | inl e ↦ rw e (h, hs)
    | inr e ↦ rw e (hs.0, insert_sorted-Listed x xs m h hs.1)
  ]

  pub sort-Listed : (xs : List K) (m : HashMap K T) → Listed xs m → Listed (sort xs) m
  unfolding sort
  sort-Listed [] m h = tt
  sort-Listed (x ∷ xs) m h = insert_sorted-Listed x (sort xs) m h.0 (sort-Listed xs m h.1)

  -- The `expect` in `calculate_hash` holds where every key has a value.
  pub hash_input_total :
      ⦃value : StateMapValue T⦄ (xs : List K) (m : HashMap K T)
      → Listed xs m
      → (bytes : List ℕ) × (hash_input xs m ≡ ok bytes)
  unfolding hash_input
  hash_input_total [] m h = ([], refl)
  hash_input_total (x ∷ xs) m h =
      let (rest, e) = hash_input_total xs m h.1 in
      elim (Option-cases (lookup key.eq_dec x m)) [
        | inl gone ↦ absurd (ground arith)
        | inr (v, found) ↦ (entry_bytes x v ++ rest, rw (found, e))
      ]

module _ {ℓ} {K T R W : Type ℓ} ⦃key : StateMapKey K⦄ ⦃value : StateMapValue T⦄ ⦃sha : Sha256⦄
    ⦃order : IterOrder K T key.eq_dec⦄ (remotes : Remote K T R W) where
  -- Freezing again does nothing, whatever became of the first attempt.
  pub freeze_frozen :
      (s : StateMap K T R) (w : W) → is_frozen s ≡ true → freeze remotes s w ≡ (ok tt, s, w)
  unfolding freeze is_frozen
  freeze_frozen s w h = ground arith

  -- The map that `freeze` shows to the remote and leaves behind.
  abbrev pub opened : StateMap K T R → List ℕ → StateMap K T R
  opened s bytes =
      let hashed = record s { order = sort s.order; hash = some (sha.digest bytes) } in
      record hashed { diffs = full_diff hashed ∷ [] }

  pub freeze-opened :
      (s : StateMap K T R) (w : W)
      → IsFresh s
      → (bytes : List ℕ) × (hash_input (sort s.order) s.contents ≡ ok bytes)
        × (freeze remotes s w ≡ (
          map_err from_dyn_error (remotes.init s.remote (opened s bytes) w).0,
          opened s bytes,
          (remotes.init s.remote (opened s bytes) w).1,
        ))
  unfolding freeze is_frozen
  freeze-opened s w h =
      let (bytes, e) =
        hash_input_total (sort s.order) s.contents (sort-Listed s.order s.contents h.listed) in
      let open_hash : s.hash ≡ none = ground arith in
      let hashed = record s { order = sort s.order; hash = some (sha.digest bytes) } in
      (
        bytes,
        e,
        rw (open_hash, freeze)
            (rw e (
              ap
                (λ ds.
                  let shown = record hashed { diffs = ds ++ full_diff hashed ∷ [] } in
                  (
                    map_err from_dyn_error (remotes.init s.remote shown w).0,
                    shown,
                    (remotes.init s.remote shown w).1,
                  ))
                h.no_diffs)),
      )

  -- A fresh master that is frozen has the master's invariant, whatever its remote answers: it is at
  -- update id 0, and reads as before.
  pub freeze-IsMaster :
      (s : StateMap K T R) (w : W)
      → IsFresh s
      → s.is_master ≡ true
      → IsMaster (freeze remotes s w).1
        × ((freeze remotes s w).1.update_id ≡ 0)
        × ((q : K) → get q (freeze remotes s w).1 ≡ get q s)
  unfolding is_frozen full_diff get replay writes lookup
  freeze-IsMaster s w h m =
      let (bytes, e, shown) = freeze-opened s w h in
      rw shown (
        record {
          frozen = refl;
          master = m;
          history = (refl, h.no_updates, sym h.no_updates);
          current = λ q. sym (
              ap (λ l. lookup key.eq_dec q (extend key.eq_dec [] l))
                (append-nil (order.iter s.contents))
              ∙ lookup-extend-iter order q s.contents [] h.distinct
              ∙ or_else-none (lookup key.eq_dec q s.contents));
          distinct = h.distinct;
        },
        h.no_updates,
        λ q. refl,
      )

  -- A fresh map whose remote fails on `init` is frozen all the same: the error is reported once, and
  -- the next `freeze` reports success without asking the remote again.
  pub freeze_retry :
      (s : StateMap K T R) (w w' : W) (e : StateMapError)
      → IsFresh s
      → (freeze remotes s w).0 ≡ err e
      → freeze remotes (freeze remotes s w).1 w' ≡ (ok tt, (freeze remotes s w).1, w')
  unfolding is_frozen
  freeze_retry s w w' e h failed =
      let (bytes, hashed, shown) = freeze-opened s w h in
      freeze_frozen (freeze remotes s w).1 w' (rw shown)
