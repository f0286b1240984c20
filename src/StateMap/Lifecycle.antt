-- ===== src/StateMap/Lifecycle.antt =====
-- The calls of a program on a state map, one after the other.
pub mod Frozen
pub mod Master
use syncstate.Prelude.{ℕ, zero, suc, ◌≡◌, Bool, List, [], ◌∷◌, ok}
use syncstate.HashMap.{IterOrder}
use syncstate.Traits.{StateMapKey, StateMapValue}
use syncstate.StateMap.Defs.{StateMap, Remote, push, set_master}
use syncstate.StateMap.Freeze.{Sha256, freeze}
use syncstate.StateMap.Modify.{StateMapModifier, set, begin_modification, modifier_set, commit}
use syncstate.StateMap.Update.{set_update_id}

-- A modifier after some calls of its `set`.
abbrev pub modified {ℓ} :
    {K T R : Type ℓ} ⦃key : StateMapKey K⦄
    → List (K × T)
    → StateMapModifier K T R
    → StateMapModifier K T R
modified [] mods = mods
modified ((k, v) ∷ l) mods = modified l (modifier_set k v mods).1

module _ {ℓ} {K T R W : Type ℓ} ⦃key : StateMapKey K⦄ ⦃value : StateMapValue T⦄ ⦃sha : Sha256⦄
    ⦃order : IterOrder K T key.eq_dec⦄ (remotes : Remote K T R W) (s : StateMap K T R) where
  -- What becomes of a state map in a number of calls, whatever they return. A modifier that is
  -- dropped leaves its map as it is.
  pub data Calls : ℕ → StateMap K T R → Type ℓ where
    no_calls : Calls zero s
    push_called :
        (n : ℕ) (s' : StateMap K T R) (k : K) (v : T) → Calls n s' → Calls (suc n) (push k v s').1
    set_master_called :
        (n : ℕ) (s' : StateMap K T R) (b : Bool) → Calls n s' → Calls (suc n) (set_master b s').1
    freeze_called :
        (n : ℕ) (s' : StateMap K T R) (w : W) → Calls n s' → Calls (suc n) (freeze remotes s' w).1
    set_called :
        (n : ℕ) (s' : StateMap K T R) (k : K) (v : T) → Calls n s' → Calls (suc n) (set k v s').1
    commit_called :
        (n : ℕ) (s' : StateMap K T R) (mods : StateMapModifier K T R) (l : List (K × T))
        → begin_modification s' ≡ ok mods
        → Calls n s'
        → Calls (suc n) (commit (modified l mods)).1
    set_update_id_called :
        (n : ℕ) (s' : StateMap K T R) (u : ℕ) (w : W)
        → Calls n s'
        → Calls (suc n) (set_update_id remotes u s' w).1
