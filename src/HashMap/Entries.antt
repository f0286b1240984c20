-- ===== src/HashMap/Entries.antt =====
-- Insertion and lookup over a list of entries, and loops of insertions.
use syncstate.Prelude.{◌≡◌, ite, Bool, Option, none, some, or_else, is_some, List, [], ◌∷◌, lookup}

abbrev pub HashMap {ℓ} : Type ℓ → Type ℓ → Type ℓ
HashMap K V = List (K × V)

module _ {ℓ} {K V : Type ℓ} (dec : Discrete K) where
  -- `HashMap::contains_key`
  abbrev pub contains_key : K → HashMap K V → Bool
  contains_key k m = is_some (lookup dec k m)

  -- `HashMap::insert`; the value that it returns is `lookup dec k m`.
  unfoldable pub insert : K → V → HashMap K V → HashMap K V
  insert k v [] = (k, v) ∷ []
  insert k v (e ∷ m) = ite (dec k e.0) ((e.0, v) ∷ m) (e ∷ insert k v m)

  -- `HashMap::remove`; the keys of a map are distinct.
  unfoldable pub remove : K → HashMap K V → HashMap K V
  remove k [] = []
  remove k (e ∷ m) = let rest = remove k m in ite (dec k e.0) rest (e ∷ rest)

  -- `for (k, v) in l { m.insert(k, v); }`
  unfoldable pub extend : HashMap K V → List (K × V) → HashMap K V
  extend m [] = m
  extend m ((k, v) ∷ l) = extend (insert k v m) l

  -- No key stands twice.
  abbrev pub Distinct : List (K × V) → Type ℓ
  Distinct [] = Unit
  Distinct (e ∷ l) = (lookup dec e.0 l ≡ none) × Distinct l

  -- The value that a sequence of writes leaves at a key.
  unfoldable pub last_write : K → List (K × V) → Option V
  last_write k [] = none
  last_write k (e ∷ l) = or_else (last_write k l) (ite (dec k e.0) (some e.1) none)
