-- ===== src/StateMap/History.antt =====
-- The invariant of a master state map: its update ids run from 0 without a gap, each with the diff
-- that leads to it, and its contents are what the history adds up to.
pub mod Ids
pub mod Grow
use syncstate.Prelude.{
  ℕ, zero, suc, ◌+◌, ◌-◌, ◌<◌, ◌≤◌, u64_mod, ◌≡◌, refl, true, List, [], ◌∷◌, lookup, length, take,
  head?, get_last?, some, Option, arith,
}
use syncstate.HashMap.{HashMap, Distinct}
use syncstate.Traits.{StateMapKey}
use syncstate.Diff.{Diff, replay}
use syncstate.StateMap.Defs.{StateMap, is_frozen}

module _ {ℓ} {K T : Type ℓ} where
  -- One diff for each step from `a` up to `n`.
  abbrev pub Chain : ℕ → List (Diff K T) → ℕ → Type 0
  Chain a [] n = a ≡ n
  Chain a (d ∷ ds) n = (d.from_update_id ≡ a) × (d.upto_update_id ≡ suc a) × Chain (suc a) ds n

  -- The opening diff from 0 to 0, and a chain of updates.
  abbrev pub IsHistory : List (Diff K T) → ℕ → Type 0
  IsHistory [] n = ⊥
  IsHistory (d ∷ ds) n = (d.from_update_id ≡ 0) × (d.upto_update_id ≡ 0) × Chain 0 ds n

  pub Chain-le : (a : ℕ) (ds : List (Diff K T)) (n : ℕ) → Chain a ds n → a ≤ n
  Chain-le a [] n c = omega arith
  Chain-le a (d ∷ ds) n c = omega (arith, Chain-le (suc a) ds n c.2)

  Chain-length : (a : ℕ) (ds : List (Diff K T)) (n : ℕ) → Chain a ds n → a + length ds ≡ n
  Chain-length a [] n c = omega arith
  Chain-length a (d ∷ ds) n c = omega (arith, Chain-length (suc a) ds n c.2)

  pub IsHistory-length : (ds : List (Diff K T)) (n : ℕ) → IsHistory ds n → length ds ≡ suc n
  IsHistory-length [] n h = absurd h
  IsHistory-length (d ∷ ds) n h = omega (arith, Chain-length 0 ds n h.2)

  pub head-IsHistory :
      (ds : List (Diff K T)) (n : ℕ)
      → IsHistory ds n
      → (d : Diff K T) × (head? ds ≡ some d) × (d.upto_update_id ≡ 0)
  head-IsHistory [] n h = absurd h
  head-IsHistory (d ∷ ds) n h = (d, refl, h.1)

module _ {ℓ} {K T R : Type ℓ} ⦃key : StateMapKey K⦄ where
  -- The contents at an update id, as the history tells them.
  unfoldable pub snapshot : StateMap K T R → ℕ → HashMap K T
  unfolding replay
  snapshot s i = replay [] (take (suc i) s.diffs)

  pub record IsMaster (s : StateMap K T R) : Type ℓ where
    pub frozen : is_frozen s ≡ true
    pub master : s.is_master ≡ true
    pub history : IsHistory s.diffs s.update_id
    pub current : (q : K) → lookup key.eq_dec q s.contents ≡ lookup key.eq_dec q (replay [] s.diffs)
    pub distinct : Distinct key.eq_dec s.contents
