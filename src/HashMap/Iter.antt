-- ===== src/HashMap/Iter.antt =====
-- The order in which a `HashMap` is iterated. It is not specified, so it is a parameter of the
-- code that iterates: each entry is visited once, and nothing else is known.
use syncstate.Prelude.{◌≡◌, refl, ◌∙◌, or_else, List, lookup}
use syncstate.HashMap.Entries.{HashMap, Distinct, extend, last_write}
use syncstate.HashMap.Laws.{last_write_of_Distinct, lookup-extend}

pub record IterOrder {ℓ} (K V : Type ℓ) (dec : Discrete K) : Type ℓ where
  pub iter : HashMap K V → List (K × V)
  pub lookup-iter : (q : K) (m : HashMap K V) → lookup dec q (iter m) ≡ lookup dec q m
  pub iter-Distinct : (m : HashMap K V) → Distinct dec m → Distinct dec (iter m)

-- The order of insertion is one such order.
abbrev pub in_order {ℓ} : {K V : Type ℓ} (dec : Discrete K) → IterOrder K V dec
in_order dec = record { iter = λ m. m; lookup-iter = λ q m. refl; iter-Distinct = λ m d. d }

module _ {ℓ} {K V : Type ℓ} {dec : Discrete K} (order : IterOrder K V dec) where
  open order use {iter, lookup-iter, iter-Distinct}

  pub last_write-iter :
      (q : K) (m : HashMap K V) → Distinct dec m → last_write dec q (iter m) ≡ lookup dec q m
  last_write-iter q m d =
      last_write_of_Distinct dec q (iter m) (iter-Distinct m d) ∙ lookup-iter q m

  -- Writing the entries of a map over another, in any order.
  pub lookup-extend-iter :
      (q : K) (m base : HashMap K V)
      → Distinct dec m
      → lookup dec q (extend dec base (iter m)) ≡ or_else (lookup dec q m) (lookup dec q base)
  lookup-extend-iter q m base d =
      lookup-extend dec q base (iter m)
      ∙ (λ i. or_else (last_write-iter q m d i) (lookup dec q base))
