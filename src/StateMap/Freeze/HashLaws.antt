-- ===== src/StateMap/Freeze/HashLaws.antt =====
-- The digest, and the order in which keys were pushed.
use mathlib.Core.List.{
  Perm, Nodup, Mem, Nodup-cons, mem-cons, not-mem-nil, mem-cons_self, mem-cons_of_mem, Nodup-nil,
  perm_ext_iff_of_Nodup,
}
use mathlib.Core.HLevel.{hedberg}
use mathlib.Core.Logic.{∥∥₁_elim}
use mathlib.Core.Logic.Or
use syncstate.Prelude.{
  ◌≡◌, refl, ap, sym, ◌∙◌, true, List, [], ◌∷◌, lookup, ok, arith, is_some, Bool, ◌>>=◌,
  or_else-none,
}
use syncstate.HashMap.{
  HashMap, Distinct, contains_key, extend, last_write, lookup-extend, last_write_of_Distinct,
}
use syncstate.Traits.{StateMapKey, StateMapValue}
use syncstate.Sort.{sort}
use syncstate.Sort.Laws.{sort_of_perm}
use syncstate.StateMap.Defs.{StateMap, new, is_frozen}
use syncstate.StateMap.Build.{keys, push_all, push_all-eq}
use syncstate.StateMap.Sync.{SameContents}
use syncstate.StateMap.Freeze.{Sha256, hash_input, hash_entry, calculate_hash}

module _ {ℓ} {K T : Type ℓ} ⦃key : StateMapKey K⦄ ⦃value : StateMapValue T⦄ where
  hash_input-SameContents :
      (xs : List K) (m m' : HashMap K T) → SameContents m m' → hash_input xs m ≡ hash_input xs m'
  unfolding hash_input
  hash_input-SameContents [] m m' h = refl
  hash_input-SameContents (x ∷ xs) m m' h =
      λ i. hash_entry x (h x i) (hash_input-SameContents xs m m' h i)

module _ {ℓ} {K : Type ℓ} ⦃key : StateMapKey K⦄ where
  -- Sorting forgets the order, also where the permutation is only known to exist.
  pub sort-Perm : {xs ys : List K} → Perm xs ys → sort xs ≡ sort ys
  sort-Perm p = ∥∥₁_elim p (List-set _ _) sort_of_perm
    where
      List-set : IsSet (List K)
      List-set = hlevel (hedberg key.eq_dec)

  -- A key is listed exactly if a lookup finds it.
  mem-keys_of_contains_key :
      {T : Type ℓ} (q : K) (l : List (K × T)) → contains_key key.eq_dec q l ≡ true → Mem q (keys l)
  unfolding lookup
  mem-keys_of_contains_key q [] h = cc
  mem-keys_of_contains_key q (e ∷ l) h = elim (key.eq_dec q e.0) [
    | yes p ↦ rw p mem-cons_self
    | no p ↦ mem-cons_of_mem e.0 (mem-keys_of_contains_key q l (ground arith))
  ]

  contains_key_of_mem-keys :
      {T : Type ℓ} (q : K) (l : List (K × T)) → Mem q (keys l) → contains_key key.eq_dec q l ≡ true
  unfolding lookup
  contains_key_of_mem-keys q [] m = absurd (not-mem-nil m)
  contains_key_of_mem-keys q (e ∷ l) m =
      Or.elim (Bool-set _ _) (mem-cons.0 m) (λ p. ground arith)
        (λ r. ground (arith, contains_key_of_mem-keys q l r))
    where
      Bool-set : IsSet Bool
      Bool-set = hlevel

  Nodup-keys : {T : Type ℓ} (l : List (K × T)) → Distinct key.eq_dec l → Nodup (keys l)
  Nodup-keys [] d = Nodup-nil
  Nodup-keys (e ∷ l) d =
      Nodup-cons.1 (λ m. cc (contains_key_of_mem-keys e.0 l m, d.0), Nodup-keys l d.1)

  pub keys-perm :
      {T : Type ℓ} (l l' : List (K × T))
      → Distinct key.eq_dec l
      → Distinct key.eq_dec l'
      → SameContents l l'
      → Perm (keys l) (keys l')
  keys-perm l l' d d' same = (perm_ext_iff_of_Nodup (Nodup-keys l d) (Nodup-keys l' d')).1 (λ q. (
    λ m. mem-keys_of_contains_key q l' (ap is_some (sym (same q)) ∙ contains_key_of_mem-keys q l m),
    λ m. mem-keys_of_contains_key q l (ap is_some (same q) ∙ contains_key_of_mem-keys q l' m),
  ))

module _ {ℓ} {K T R R' : Type ℓ} ⦃key : StateMapKey K⦄ ⦃value : StateMapValue T⦄
    ⦃sha : Sha256⦄ where
  calculate_hash-Perm :
      (s : StateMap K T R) (s' : StateMap K T R')
      → Perm s.order s'.order
      → SameContents s.contents s'.contents
      → (calculate_hash s).0 ≡ (calculate_hash s').0
  unfolding calculate_hash
  calculate_hash-Perm s s' p same =
      ap (λ bytes. bytes >>= λ b. ok (sha.digest b))
        (ap (λ xs. hash_input xs s.contents) (sort-Perm p)
          ∙ hash_input-SameContents (sort s'.order) s.contents s'.contents same)

  -- Two maps to which the same entries were pushed, in whatever order and with no key twice, have
  -- the same digest, whatever their remotes are.
  pub calculate_hash-push_all :
      (xs ys : List (K × T)) (r : R) (r' : R')
      → Distinct key.eq_dec xs
      → Distinct key.eq_dec ys
      → SameContents xs ys
      → (calculate_hash (push_all xs (new r)).1).0 ≡ (calculate_hash (push_all ys (new r')).1).0
  unfolding new is_frozen lookup
  calculate_hash-push_all xs ys r r' d d' same =
      rw (push_all-eq xs (new r) refl, push_all-eq ys (new r') refl)
        (calculate_hash-Perm
          (record (new r) { contents = extend key.eq_dec [] xs; order = keys xs })
          (record (new r') { contents = extend key.eq_dec [] ys; order = keys ys })
          (keys-perm xs ys d d' same) (λ q. built q xs d ∙ same q ∙ sym (built q ys d')))
    where
      built :
          (q : K) (l : List (K × T))
          → Distinct key.eq_dec l
          → lookup key.eq_dec q (extend key.eq_dec [] l) ≡ lookup key.eq_dec q l
      built q l e =
          lookup-extend key.eq_dec q [] l
          ∙ or_else-none (last_write key.eq_dec q l)
          ∙ last_write_of_Distinct key.eq_dec q l e
