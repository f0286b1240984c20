-- ===== src/Bincode.antt =====
-- The crate `bincode`, which is not part of the program: `encode_to_vec` and the first component of
-- what `decode_from_slice` returns, with errors as their texts. What was encoded decodes to itself.
use syncstate.Prelude.{ℕ, String, ◌≡◌, List, Outcome, ok}

pub record Codec {ℓ} (A : Type ℓ) : Type ℓ where
  pub encode : A → Outcome String (List ℕ)
  pub decode : List ℕ → Outcome String A
  pub decode-encode : (a : A) (bytes : List ℕ) → encode a ≡ ok bytes → decode bytes ≡ ok a
