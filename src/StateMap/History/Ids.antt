-- ===== src/StateMap/History/Ids.antt =====
-- The ids of a stretch of a history.
use syncstate.Prelude.{ℕ, zero, suc, ◌+◌, ◌<◌, ◌≤◌, min, max, ◌≡◌, List, [], ◌∷◌, take, drop, arith}
use syncstate.Diff.{Diff, lowest, highest}
use syncstate.StateMap.History.{Chain, Chain-le}

module _ {ℓ} {K T : Type ℓ} where
  pub drop-Chain :
      (k a : ℕ) (ds : List (Diff K T)) (n : ℕ)
      → Chain a ds n
      → a + k ≤ n
      → Chain (a + k) (drop k ds) n
  drop-Chain zero a ds n c p = rw (add_zero a) c
    where
      add_zero : (a : ℕ) → a + 0 ≡ a
      add_zero a = omega arith
  drop-Chain (suc k) a [] n c p = absurd (omega arith)
  drop-Chain (suc k) a (d ∷ ds) n c p =
      let step : a + suc k ≡ suc a + k = omega arith in
      rw step (drop-Chain k (suc a) ds n c.2 (omega arith))

  pub take-Chain :
      (k a : ℕ) (ds : List (Diff K T)) (n : ℕ)
      → Chain a ds n
      → a + k ≤ n
      → Chain a (take k ds) (a + k)
  take-Chain zero a ds n c p = omega arith
  take-Chain (suc k) a [] n c p = absurd (omega arith)
  take-Chain (suc k) a (d ∷ ds) n c p =
      let step : a + suc k ≡ suc a + k = omega arith in
      (c.0, c.1, rw step (take-Chain k (suc a) ds n c.2 (omega arith)))

  pub lowest-le : (lo : ℕ) (ds : List (Diff K T)) → lowest lo ds ≤ lo
  unfolding lowest
  lowest-le lo [] = omega arith
  lowest-le lo (d ∷ ds) = omega (arith, lowest-le (min lo d.from_update_id) ds)

  pub lowest-le-Chain :
      (lo a : ℕ) (ds : List (Diff K T)) (n : ℕ) → Chain a ds n → a < n → lowest lo ds ≤ a
  unfolding lowest
  lowest-le-Chain lo a [] n c p = absurd (omega arith)
  lowest-le-Chain lo a (d ∷ ds) n c p = omega (arith, lowest-le (min lo d.from_update_id) ds)

  pub highest-Chain :
      (hi a : ℕ) (ds : List (Diff K T)) (n : ℕ) → Chain a ds n → hi ≤ n → a < n → highest hi ds ≡ n
  unfolding highest
  highest-Chain hi a [] n c q p = absurd (omega arith)
  highest-Chain hi a (d ∷ []) n c q p = omega arith
  highest-Chain hi a (d ∷ e ∷ ds) n c q p =
      highest-Chain (max hi d.upto_update_id) (suc a) (e ∷ ds) n c.2
        (omega (arith, Chain-le (suc (suc a)) ds n c.2.2))
        (omega (arith, Chain-le (suc (suc a)) ds n c.2.2))
