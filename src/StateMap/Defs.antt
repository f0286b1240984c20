-- ===== src/StateMap/Defs.antt =====
-- The types, and the operations on a state map that is being built or read.
use syncstate.Prelude.{
  ℕ, String, Bool, true, false, Option, none, List, [], ◌∷◌, ◌++◌, lookup, Outcome, ok, err,
  is_some, if◌then◌else◌,
}
use syncstate.HashMap.{HashMap, insert, IterOrder}
use syncstate.Traits.{StateMapKey}
use syncstate.Diff
use syncstate.Diff.{Diff}

pub data StateMapError : Type 0 where
  frozen unfrozen : StateMapError
  fetch_update_error : String → StateMapError
  key_not_found empty_diff : StateMapError
  unknown_error : String → StateMapError

-- `From<Box<dyn Error>>`: of an error object only its text is used.
unfoldable pub from_dyn_error : String → StateMapError
from_dyn_error value = unknown_error value

-- `[u8; 32]`
abbrev pub Hash : Type 0
Hash = List ℕ

-- `R` is the type of the remote that `Arc<dyn Remote<K, T>>` points to.
pub record StateMap {ℓ} (K T R : Type ℓ) : Type ℓ where
  pub contents : HashMap K T  -- the field `data`
  pub order : List K
  pub update_id : ℕ  -- u64
  pub hash : Option Hash
  pub remote : R
  pub is_master : Bool
  pub diffs : List (Diff K T)

module _ {ℓ} {K T R : Type ℓ} where
  unfoldable pub new : R → StateMap K T R
  new remote = record {
    contents = [];
    order = [];
    update_id = 0;
    hash = none;
    remote = remote;
    is_master = false;
    diffs = [];
  }

  unfoldable pub get_update_id : StateMap K T R → ℕ
  get_update_id s = s.update_id

  unfoldable pub is_frozen : StateMap K T R → Bool
  is_frozen s = is_some s.hash

  unfoldable pub set_master :
      Bool → StateMap K T R → Outcome StateMapError (Unit {0}) × StateMap K T R
  unfolding is_frozen
  set_master is_master s =
      if is_frozen s then (err frozen, s) else (ok tt, record s { is_master = is_master })

  unfoldable pub get_hash : StateMap K T R → Option Hash
  get_hash s = s.hash

module _ {ℓ} {K T R : Type ℓ} ⦃key : StateMapKey K⦄ where
  unfoldable pub push : K → T → StateMap K T R → Outcome StateMapError (Unit {0}) × StateMap K T R
  push k value s = if is_some s.hash then (err frozen, s) else (
    ok tt,
    record s { contents = insert key.eq_dec k value s.contents; order = s.order ++ k ∷ [] },
  )

  unfoldable pub get : K → StateMap K T R → Option T
  get k s = lookup key.eq_dec k s.contents

-- `IntoIterator` for a state map and for a reference to one
unfoldable pub into_iter {ℓ} :
    {K T R : Type ℓ} ⦃key : StateMapKey K⦄ ⦃order : IterOrder K T key.eq_dec⦄
    → StateMap K T R
    → List (K × T)
into_iter ⦃order = order⦄ s = order.iter s.contents

-- `Diff::full_diff` of src/diff.rs
unfoldable pub full_diff {ℓ} :
    {K T R : Type ℓ} ⦃key : StateMapKey K⦄ ⦃order : IterOrder K T key.eq_dec⦄
    → StateMap K T R
    → Diff K T
unfolding into_iter Diff.new get_update_id
full_diff s = Diff.new (into_iter s) true 0 (get_update_id s)

-- The trait `Remote` of src/remote.rs, for remotes of type `R` that act on a world `W`. A
-- `Box<dyn Error>` is its text.
pub record Remote {ℓ} (K T R W : Type ℓ) : Type ℓ where
  pub fetch_updates : R → ℕ → ℕ → Hash → W → Outcome String (Diff K T) × W
  pub init : R → StateMap K T R → W → Outcome String (Unit {0}) × W
