-- ===== src/HashMap/Laws.antt =====
-- What can be read after insertions and removals.
use syncstate.Prelude.{
  ◌≡◌, refl, ◌≢◌, ◌∙◌, sym, ite, if_pos, if_neg, none, some, or_else, or_else_assoc, or_else-none,
  List, [], ◌∷◌, ◌++◌, lookup, arith,
}
use syncstate.HashMap.Entries.{HashMap, insert, remove, extend, Distinct, last_write}

module _ {ℓ} {K V : Type ℓ} (dec : Discrete K) where
  pub lookup-insert :
      (q k : K) (v : V) (m : HashMap K V)
      → lookup dec q (insert dec k v m) ≡ ite (dec q k) (some v) (lookup dec q m)
  unfolding lookup insert
  lookup-insert q k v [] = refl
  lookup-insert q k v (e ∷ m) = ground (arith, lookup-insert q k v m)

  pub lookup-insert_self :
      (k : K) (v : V) (m : HashMap K V) → lookup dec k (insert dec k v m) ≡ some v
  lookup-insert_self k v m = lookup-insert k k v m ∙ if_pos (dec k k) refl _ _

  pub lookup-insert_ne :
      (q k : K) (v : V) (m : HashMap K V) → q ≢ k → lookup dec q (insert dec k v m) ≡ lookup dec q m
  lookup-insert_ne q k v m h = lookup-insert q k v m ∙ if_neg (dec q k) h _ _

  pub lookup-remove :
      (q k : K) (m : HashMap K V)
      → lookup dec q (remove dec k m) ≡ ite (dec q k) none (lookup dec q m)
  unfolding lookup remove
  lookup-remove q k [] = ground arith
  lookup-remove q k (e ∷ m) = ground (arith, lookup-remove q k m)

  pub insert-Distinct :
      (k : K) (v : V) (m : HashMap K V) → Distinct dec m → Distinct dec (insert dec k v m)
  unfolding insert lookup
  insert-Distinct k v [] d = (refl, tt)
  insert-Distinct k v (e ∷ m) d = ground (arith, insert-Distinct k v m, lookup-insert e.0 k v m)

  pub remove-Distinct : (k : K) (m : HashMap K V) → Distinct dec m → Distinct dec (remove dec k m)
  unfolding remove
  remove-Distinct k [] d = tt
  remove-Distinct k (e ∷ m) d = ground (arith, remove-Distinct k m, lookup-remove e.0 k m)

  -- A loop of insertions leaves the last write to each key.
  pub lookup-extend :
      (q : K) (m : HashMap K V) (l : List (K × V))
      → lookup dec q (extend dec m l) ≡ or_else (last_write dec q l) (lookup dec q m)
  unfolding extend last_write
  lookup-extend q m [] = refl
  lookup-extend q m (e ∷ l) =
      ground (arith, lookup-extend q (insert dec e.0 e.1 m) l, lookup-insert q e.0 e.1 m)

  pub extend-append :
      (m : HashMap K V) (l r : List (K × V)) → extend dec m (l ++ r) ≡ extend dec (extend dec m l) r
  unfolding extend
  extend-append m [] r = refl
  extend-append m (e ∷ l) r = extend-append (insert dec e.0 e.1 m) l r

  pub extend-Distinct :
      (m : HashMap K V) (l : List (K × V)) → Distinct dec m → Distinct dec (extend dec m l)
  unfolding extend
  extend-Distinct m [] d = d
  extend-Distinct m (e ∷ l) d =
      extend-Distinct (insert dec e.0 e.1 m) l (insert-Distinct e.0 e.1 m d)

  pub last_write-append :
      (q : K) (l r : List (K × V))
      → last_write dec q (l ++ r) ≡ or_else (last_write dec q r) (last_write dec q l)
  unfolding last_write
  last_write-append q [] r = sym (or_else-none _)
  last_write-append q (e ∷ l) r = rw (last_write-append q l r, or_else_assoc)

  -- Where no key stands twice, the order of the writes does not matter.
  pub last_write_of_Distinct :
      (q : K) (l : List (K × V)) → Distinct dec l → last_write dec q l ≡ lookup dec q l
  unfolding last_write lookup
  last_write_of_Distinct q [] d = refl
  last_write_of_Distinct q (e ∷ l) d = ground (arith, last_write_of_Distinct q l)
