-- ===== src/Sort.antt =====
-- `Vec::sort` of the standard library, on a vector of keys: a stable sort, here by insertion.
pub mod Laws
use syncstate.Prelude.{Bool, List, [], ◌∷◌, if◌then◌else◌}
use syncstate.Traits.{StateMapKey}

module _ {ℓ} {K : Type ℓ} ⦃key : StateMapKey K⦄ where
  unfoldable pub insert_sorted : K → List K → List K
  insert_sorted a [] = a ∷ []
  insert_sorted a (b ∷ l) =
      let rest = insert_sorted a l in if key.leb a b then a ∷ b ∷ l else (b ∷ rest)

  unfoldable pub sort : List K → List K
  unfolding insert_sorted
  sort [] = []
  sort (a ∷ l) = insert_sorted a (sort l)
