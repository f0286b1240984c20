-- ===== src/Sort/Laws.antt =====
-- The sorted vector, and the order in which its keys were.
use mathlib.Core.List.{Permᴰ}
use syncstate.Prelude.{◌≡◌, refl, ◌∙◌, List, [], ◌∷◌, arith}
use syncstate.Traits.{StateMapKey}
use syncstate.Sort.{insert_sorted, sort}

module _ {ℓ} {K : Type ℓ} ⦃key : StateMapKey K⦄ where
  open key use {leb, leb_total, leb_antisymm, leb_trans}

  pub insert_sorted_comm :
      (a b : K) (l : List K)
      → insert_sorted a (insert_sorted b l) ≡ insert_sorted b (insert_sorted a l)
  unfolding insert_sorted
  insert_sorted_comm a b [] = ground (arith, leb_total a b, leb_antisymm a b)
  insert_sorted_comm a b (x ∷ l) = ground (
    arith,
    leb_total a b,
    leb_total b a,
    leb_antisymm a b,
    leb_trans a b x,
    leb_trans b a x,
    insert_sorted_comm a b l,
  )

  -- Sorting forgets the order in which the keys came.
  pub sort_of_perm : {xs ys : List K} → Permᴰ xs ys → sort xs ≡ sort ys
  unfolding sort
  sort_of_perm Permᴰ.nil = refl
  sort_of_perm (Permᴰ.cons e p) = λ i. insert_sorted (e i) (sort_of_perm p i)
  sort_of_perm (Permᴰ.swap {a} {b} {l = l} p q) =
      insert_sorted_comm a b (sort l) ∙ (λ i. insert_sorted (q i) (insert_sorted (p i) (sort l)))
  sort_of_perm (Permᴰ.trans p q) = sort_of_perm p ∙ sort_of_perm q
