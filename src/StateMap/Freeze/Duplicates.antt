-- ===== src/StateMap/Freeze/Duplicates.antt =====
-- A key that is pushed twice: `push` adds it to the order of keys once more, so `calculate_hash`
-- feeds it to the hasher twice.
use syncstate.Prelude.{
  ℕ, ◌+◌, ◌<◌, ◌≡◌, refl, ap, sym, ◌∙◌, true, some, none, Option, Option-cases, inl, inr, List, [],
  ◌∷◌, ◌++◌, lookup, length, length-append, ok, ok_inj, bind-ok, ◌>>=◌, arith, Bool-cases,
  or_else-none, to_be_bytes, ite, if_pos, if_neg,
}
use syncstate.HashMap.{
  HashMap, Distinct, contains_key, insert, insert-Distinct, extend, lookup-insert,
  lookup-insert_self, last_write, lookup-extend, last_write_of_Distinct,
}
use syncstate.Traits.{StateMapKey, StateMapValue}
use syncstate.Sort.{sort, insert_sorted}
use syncstate.StateMap.Defs.{StateMap, new, push, is_frozen}
use syncstate.StateMap.Build.{
  keys, push_all, push_all-eq, IsFresh, new-IsFresh, push_lem, push-eq, push_all_lem,
}
use syncstate.StateMap.Sync.{SameContents}
use syncstate.StateMap.Freeze.{Sha256, entry_bytes, hash_input, hash_entry, calculate_hash}
use syncstate.StateMap.Freeze.HashLaws.{sort-Perm, keys-perm}
use syncstate.StateMap.Freeze.Laws.{sort-Listed, hash_input_total}

module _ {ℓ} {K T : Type ℓ} ⦃key : StateMapKey K⦄ ⦃value : StateMapValue T⦄ where
  -- How many bytes the hasher is fed for a key, and for all of them.
  abbrev entry_length : K → Option T → ℕ
  entry_length x none = 0
  entry_length x (some v) = length (entry_bytes x v)

  abbrev total : List K → HashMap K T → ℕ
  total [] m = 0
  total (x ∷ xs) m = entry_length x (lookup key.eq_dec x m) + total xs m

  hash_input-total :
      (xs : List K) (m : HashMap K T) (bytes : List ℕ)
      → hash_input xs m ≡ ok bytes
      → length bytes ≡ total xs m
  unfolding hash_input
  hash_input-total [] m bytes h = ap length (sym (ok_inj h))
  hash_input-total (x ∷ xs) m bytes h = elim (Option-cases (lookup key.eq_dec x m)) [
    | inl gone ↦ absurd cc
    | inr (v, found) ↦
        let (rest, fed, whole) =
          bind-ok (hash_input xs m) _ bytes
            (ap (λ o. hash_entry x o (hash_input xs m)) (sym found) ∙ h) in
        ap length (sym (ok_inj whole))
        ∙ length-append (entry_bytes x v) rest
        ∙ (λ i. entry_length x (sym found i) + hash_input-total xs m rest fed i)
  ]

  insert_sorted-total :
      (x : K) (xs : List K) (m : HashMap K T)
      → total (insert_sorted x xs) m ≡ entry_length x (lookup key.eq_dec x m) + total xs m
  unfolding insert_sorted
  insert_sorted-total x [] m = refl
  insert_sorted-total x (y ∷ xs) m = elim (Bool-cases (key.leb x y)) [
    | inl e ↦ rw e refl
    | inr e ↦ rw e (omega (arith, insert_sorted-total x xs m))
  ]

  sort-total : (xs : List K) (m : HashMap K T) → total (sort xs) m ≡ total xs m
  unfolding sort
  sort-total [] m = refl
  sort-total (x ∷ xs) m = omega (arith, insert_sorted-total x (sort xs) m, sort-total xs m)

  total-append : (xs ys : List K) (m : HashMap K T) → total (xs ++ ys) m ≡ total xs m + total ys m
  total-append [] ys m = omega arith
  total-append (x ∷ xs) ys m = omega (arith, total-append xs ys m)

  total-SameContents :
      (xs : List K) (m m' : HashMap K T) → SameContents m m' → total xs m ≡ total xs m'
  total-SameContents [] m m' same = refl
  total-SameContents (x ∷ xs) m m' same =
      λ i. entry_length x (same x i) + total-SameContents xs m m' same i

  -- The lengths that stand before a key and its value are fed too.
  entry_length_pos : (x : K) (v : T) → 0 < entry_length x (some v)
  unfolding entry_bytes to_be_bytes
  entry_length_pos x v = omega arith

  keys-insert :
      (k : K) (v : T) (m : HashMap K T)
      → contains_key key.eq_dec k m ≡ true
      → keys (insert key.eq_dec k v m) ≡ keys m
  unfolding insert lookup
  keys-insert k v [] h = absurd cc
  keys-insert k v (e ∷ m) h = elim (key.eq_dec k e.0) [
    | yes p ↦ ap keys (if_pos (key.eq_dec k e.0) p _ _)
    | no n ↦
        ap keys (if_neg (key.eq_dec k e.0) n _ _) ∙ ap (◌∷◌ e.0) (keys-insert k v m (ground arith))
  ]

module _ {ℓ} {K T R : Type ℓ} ⦃key : StateMapKey K⦄ ⦃value : StateMapValue T⦄ ⦃sha : Sha256⦄ where
  -- What the hasher is fed for a map that is not frozen.
  calculate_hash-total :
      (s : StateMap K T R)
      → IsFresh s
      → (bytes : List ℕ) × ((calculate_hash s).0 ≡ ok (sha.digest bytes))
        × (length bytes ≡ total s.order s.contents)
  unfolding calculate_hash
  calculate_hash-total s fresh =
      let (bytes, e) =
        hash_input_total (sort s.order) s.contents (sort-Listed s.order s.contents fresh.listed) in
      (
        bytes,
        ap (λ o. o >>= λ b. ok (sha.digest b)) e,
        hash_input-total (sort s.order) s.contents bytes e ∙ sort-total s.order s.contents,
      )

  -- The order of keys and the contents after pushes of distinct keys, and one more.
  push_twice_total :
      (l : List (K × T)) (k : K) (v : T) (r : R)
      → Distinct key.eq_dec l
      → SameContents (push k v (push_all l (new r)).1).1.contents (insert key.eq_dec k v l)
        × (total
              (push k v (push_all l (new r)).1).1.order
              (push k v (push_all l (new r)).1).1.contents
            ≡ total (keys l) (insert key.eq_dec k v l) + length (entry_bytes k v))
  unfolding new is_frozen lookup
  push_twice_total l k v r d =
      let pushed = push_all-eq l (new r) refl in
      let m = extend key.eq_dec [] l in
      let built : SameContents (insert key.eq_dec k v m) (insert key.eq_dec k v l) = λ q.
        lookup-insert key.eq_dec q k v m
        ∙ ap (ite (key.eq_dec q k) (some v)) (
            lookup-extend key.eq_dec q [] l
            ∙ or_else-none (last_write key.eq_dec q l)
            ∙ last_write_of_Distinct key.eq_dec q l d)
        ∙ sym (lookup-insert key.eq_dec q k v l) in
      let here : lookup key.eq_dec k (insert key.eq_dec k v m) ≡ some v =
        lookup-insert_self key.eq_dec k v m in
      rw (pushed, push-eq k v (record (new r) { contents = m; order = keys l }) refl)
        (
          built,
          total-append (keys l) (k ∷ []) (insert key.eq_dec k v m)
              ∙ (λ i. total-SameContents (keys l) _ _ built i + (entry_length k (here i) + 0))
              ∙ omega arith,
        )

module _ {ℓ} {K T : Type ℓ} ⦃key : StateMapKey K⦄ where
  -- A list of distinct entries that reads like another has its keys.
  total_of_same_keys :
      ⦃value : StateMapValue T⦄ (l' l : List (K × T)) (m : HashMap K T)
      → Distinct key.eq_dec l'
      → Distinct key.eq_dec l
      → SameContents l' l
      → total (keys l') m ≡ total (keys l) m
  total_of_same_keys l' l m d' d same =
      sym (sort-total (keys l') m)
      ∙ ap (λ xs. total xs m) (sort-Perm (keys-perm l' l d' d same))
      ∙ sort-total (keys l) m

module _ {ℓ} {K T R R' : Type ℓ} ⦃key : StateMapKey K⦄ ⦃value : StateMapValue T⦄
    ⦃sha : Sha256⦄ where
  -- A map to which entries with distinct keys were pushed, and then one of the keys once more with a
  -- value, and a map to which the entries that the first has were pushed, each key once, as a server
  -- does it: both can be hashed, but the first feeds more bytes to SHA-256 than the second.
  pub push_twice :
      (l : List (K × T)) (k : K) (v : T) (l' : List (K × T)) (r : R) (r' : R')
      → Distinct key.eq_dec l
      → contains_key key.eq_dec k l ≡ true
      → Distinct key.eq_dec l'
      → SameContents l' (push k v (push_all l (new r)).1).1.contents
      → (bytes : List ℕ) × (bytes' : List ℕ) × ((calculate_hash
            (push k v (push_all l (new r)).1).1).0
          ≡ ok (sha.digest bytes))
        × ((calculate_hash (push_all l' (new r')).1).0 ≡ ok (sha.digest bytes'))
        × (length bytes ≡ length bytes' + length (entry_bytes k v))
        × (length bytes' < length bytes)
  unfolding new is_frozen lookup
  push_twice l k v l' r r' d here d' same =
      let c = (push k v (push_all l (new r)).1).1 in
      let fresh : IsFresh c = (push_lem k v _ (push_all_lem l (new r) (new-IsFresh r)).1).1 in
      let s' = (push_all l' (new r')).1 in
      let (bytes, hashed, size) = calculate_hash-total c fresh in
      let (bytes', hashed', size') =
        calculate_hash-total s' (push_all_lem l' (new r') (new-IsFresh r')).1 in
      let (reads, grown) = push_twice_total l k v r d in
      let after = insert key.eq_dec k v l in
      let rebuilt : SameContents s'.contents l' = λ q.
        ap (λ x. lookup key.eq_dec q x.1.contents) (push_all-eq l' (new r') refl)
        ∙ lookup-extend key.eq_dec q [] l'
        ∙ or_else-none (last_write key.eq_dec q l')
        ∙ last_write_of_Distinct key.eq_dec q l' d' in
      let as_written : SameContents l' after = λ q. same q ∙ reads q in
      let order' : s'.order ≡ keys l' = ap (λ x. x.1.order) (push_all-eq l' (new r') refl) in
      let server : total s'.order s'.contents ≡ total (keys l) after =
        ap (λ xs. total xs s'.contents) order'
        ∙ total-SameContents (keys l') s'.contents after (λ q. rebuilt q ∙ as_written q)
        ∙ total_of_same_keys l' after after d' (insert-Distinct key.eq_dec k v l d) as_written
        ∙ ap (λ xs. total xs after) (keys-insert k v l here) in
      (
        bytes,
        bytes',
        hashed,
        hashed',
        omega (arith, size, size', grown, server),
        omega (arith, size, size', grown, server, entry_length_pos k v),
      )
