-- ===== src/Diff/Defs.antt =====
-- The type, its constructors and accessors, `compress` and `merge`.
use syncstate.Prelude.{ℕ, ◌-◌, ◌^◌, min, max, Bool, true, false, List, [], ◌∷◌}
use syncstate.HashMap.{HashMap, extend, IterOrder}
use syncstate.Traits.{StateMapKey}

pub record Diff {ℓ} (K T : Type ℓ) : Type ℓ where
  pub diff : List (K × T)
  pub is_full : Bool
  pub from_update_id : ℕ  -- u64
  pub upto_update_id : ℕ  -- u64

abbrev pub u64_max : ℕ
u64_max = 2 ^ 64 - 1

module _ {ℓ} {K T : Type ℓ} where
  unfoldable pub new : List (K × T) → Bool → ℕ → ℕ → Diff K T
  new diff is_full from_update_id upto_update_id = record {
    diff = diff;
    is_full = is_full;
    from_update_id = from_update_id;
    upto_update_id = upto_update_id;
  }

  unfoldable pub empty : Diff K T
  empty = record { diff = []; is_full = false; from_update_id = 0; upto_update_id = 0 }

  unfoldable pub get_diff : Diff K T → List (K × T)
  get_diff d = d.diff

  unfoldable pub is_full_update : Diff K T → Bool
  is_full_update d = d.is_full

  -- `Vec::is_empty`
  abbrev vec_is_empty : List (K × T) → Bool
  vec_is_empty [] = true
  vec_is_empty (e ∷ l) = false

  unfoldable pub is_empty : Diff K T → Bool
  is_empty d = vec_is_empty d.diff

module _ {ℓ} {K T : Type ℓ} ⦃key : StateMapKey K⦄ ⦃order : IterOrder K T key.eq_dec⦄ where
  -- The inserts go through a `HashMap`, which is read back in its order of iteration.
  unfoldable pub compress : Diff K T → Diff K T
  compress d = record d { diff = order.iter (extend key.eq_dec [] d.diff) }

  -- The loop of `merge`, over `total_diff`, `min_update_id` and `max_update_id`.
  unfoldable pub merge_loop : HashMap K T → ℕ → ℕ → List (Diff K T) → Diff K T
  unfolding new
  merge_loop total lo hi [] = new (order.iter total) false lo hi
  merge_loop total lo hi (x ∷ xs) =
      merge_loop (extend key.eq_dec total x.diff) (min lo x.from_update_id)
        (max hi x.upto_update_id) xs

  unfoldable pub merge : List (Diff K T) → Diff K T
  unfolding merge_loop
  merge = merge_loop [] u64_max 0
