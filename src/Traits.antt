-- ===== src/Traits.antt =====
-- The marker traits `StateMapKey` and `StateMapValue` of src/statemap.rs: what the code uses of a
-- key's `Eq`, `Ord` and `AsRef<[u8]>`, and of a value's `AsRef<[u8]>`.
use syncstate.Prelude.{ℕ, ◌≡◌, Bool, true, false, List}

-- `leb a b` is `a <= b`; the laws are those that `Ord` asks of a total order.
pub record StateMapKey {ℓ} (K : Type ℓ) : Type ℓ where
  pub eq_dec : Discrete K
  pub leb : K → K → Bool
  pub as_ref : K → List ℕ
  pub leb_total : (a b : K) → leb a b ≡ false → leb b a ≡ true
  pub leb_antisymm : (a b : K) → leb a b ≡ true → leb b a ≡ true → a ≡ b
  pub leb_trans : (a b c : K) → leb a b ≡ true → leb b c ≡ true → leb a c ≡ true

pub record StateMapValue {ℓ} (T : Type ℓ) : Type ℓ where
  pub value_bytes : T → List ℕ
