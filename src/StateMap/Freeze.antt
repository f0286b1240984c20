-- ===== src/StateMap/Freeze.antt =====
-- `calculate_hash` and `freeze`.
pub mod Laws
pub mod HashLaws
pub mod Duplicates
use syncstate.Prelude.{
  ℕ, Option, none, some, List, [], ◌∷◌, ◌++◌, lookup, Outcome, ok, err, panic, map_err, ◌>>=◌,
  length, to_be_bytes,
}
use syncstate.HashMap.{HashMap, IterOrder}
use syncstate.Traits.{StateMapKey, StateMapValue}
use syncstate.Sort.{sort}
use syncstate.StateMap.Defs.{StateMap, StateMapError, Hash, Remote, full_diff, from_dyn_error}

-- `sha2::Sha256` is not part of the program: a function from the bytes that it was fed.
pub record Sha256 : Type 0 where
  pub digest : List ℕ → Hash

module _ {ℓ} {K T : Type ℓ} ⦃key : StateMapKey K⦄ ⦃value : StateMapValue T⦄ where
  -- What the hasher is fed for one entry.
  unfoldable pub entry_bytes : K → T → List ℕ
  unfolding to_be_bytes
  entry_bytes x v =
      to_be_bytes 8 (length (key.as_ref x))
      ++ (key.as_ref x ++ (to_be_bytes 8 (length (value.value_bytes v)) ++ value.value_bytes v))

  abbrev hash_entry : K → Option T → Outcome StateMapError (List ℕ) → Outcome StateMapError (List ℕ)
  hash_entry x none rest = panic
  hash_entry x (some v) rest = do bytes ← rest; ok (entry_bytes x v ++ bytes)

  -- The loop over the sorted keys; `expect` panics on a key without a value.
  unfoldable pub hash_input : List K → HashMap K T → Outcome StateMapError (List ℕ)
  unfolding entry_bytes
  hash_input [] m = ok []
  hash_input (x ∷ xs) m = hash_entry x (lookup key.eq_dec x m) (hash_input xs m)

module _ {ℓ} {K T R : Type ℓ} ⦃key : StateMapKey K⦄ ⦃value : StateMapValue T⦄ ⦃sha : Sha256⦄ where
  unfoldable pub calculate_hash : StateMap K T R → Outcome StateMapError Hash × StateMap K T R
  unfolding hash_input sort
  calculate_hash s =
      let sorted = record s { order = sort s.order } in
      (hash_input sorted.order sorted.contents >>= λ bytes. ok (sha.digest bytes), sorted)

module _ {ℓ} {K T R W : Type ℓ} ⦃key : StateMapKey K⦄ ⦃order : IterOrder K T key.eq_dec⦄
    (remotes : Remote K T R W) where
  -- `freeze` once the hash is there: the full diff opens the history, and the remote is told.
  unfoldable pub freeze_hashed :
      Outcome StateMapError Hash
      → StateMap K T R
      → W
      → Outcome StateMapError (Unit {0}) × StateMap K T R × W
  unfolding full_diff from_dyn_error
  freeze_hashed (ok h) s w =
      let hashed = record s { hash = some h } in
      let opened = record hashed { diffs = hashed.diffs ++ full_diff hashed ∷ [] } in
      let (told, w') = remotes.init opened.remote opened w in
      (map_err from_dyn_error told, opened, w')
  freeze_hashed (err e) s w = (err e, s, w)
  freeze_hashed panic s w = (panic, s, w)

  unfoldable pub freeze :
      ⦃value : StateMapValue T⦄ ⦃sha : Sha256⦄
      → StateMap K T R
      → W
      → Outcome StateMapError (Unit {0}) × StateMap K T R × W
  unfolding calculate_hash freeze_hashed
  freeze s w = elim s.hash [
    | some h ↦ (ok tt, s, w)
    | none ↦ let (hashed, sorted) = calculate_hash s in freeze_hashed hashed sorted w
  ]
