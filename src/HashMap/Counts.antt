-- ===== src/HashMap/Counts.antt =====
-- How many entries a map has.
use syncstate.Prelude.{suc, ◌≤◌, ◌≡◌, ◌≢◌, true, List, [], ◌∷◌, lookup, length, arith}
use syncstate.HashMap.Entries.{HashMap, contains_key, remove, Distinct}
use syncstate.HashMap.Laws.{lookup-remove}

module _ {ℓ} {K V : Type ℓ} (dec : Discrete K) where
  length-remove_le : (k : K) (m : HashMap K V) → length (remove dec k m) ≤ length m
  unfolding remove
  length-remove_le k [] = omega arith
  length-remove_le k (e ∷ m) = ground (arith, length-remove_le k m)

  length-remove :
      (k : K) (m : HashMap K V)
      → contains_key dec k m ≡ true
      → suc (length (remove dec k m)) ≤ length m
  unfolding remove lookup
  length-remove k [] h = absurd cc
  length-remove k (e ∷ m) h = elim (dec k e.0) [
    | yes p ↦ ground (arith, length-remove_le k m)
    | no n ↦ ground (arith, length-remove k m)
  ]

  -- A list of distinct entries whose keys a map has is no longer than the map.
  pub Distinct-length :
      {U : Type ℓ} (l : List (K × U)) (m : HashMap K V)
      → Distinct dec l
      → ((q : K) → contains_key dec q l ≡ true → contains_key dec q m ≡ true)
      → length l ≤ length m
  unfolding lookup
  Distinct-length [] m d within = omega arith
  Distinct-length (e ∷ l) m d within =
      let here : contains_key dec e.0 m ≡ true = within e.0 (ground arith) in
      let rest = Distinct-length l (remove dec e.0 m) d.1 (λ q h.
        let other : q ≢ e.0 = λ p. cc (h, d.0, p) in
        ground (arith, lookup-remove dec q e.0 m, within q)) in
      omega (arith, rest, length-remove e.0 m here)
