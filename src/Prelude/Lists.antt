-- ===== src/Prelude/Lists.antt =====
-- Lists measured and indexed by native numbers, under the library's names.
use Prim.Native.Nat.{ℕ, zero, suc, ◌+◌, ◌-◌, ◌≤◌}
use mathlib.Core.Path.{◌≡◌, refl, ap, ◌∙◌}
use mathlib.Core.List.{List, [], ◌∷◌, ◌++◌}
use mathlib.Core.Option.{Option, none, some}
use native.Mathlib.Omega.{arith}

module _ {ℓ} {A : Type ℓ} where
  abbrev pub length : List A → ℕ
  length [] = 0
  length (x ∷ xs) = suc (length xs)

  abbrev pub take : ℕ → List A → List A
  take zero xs = []
  take (suc n) [] = []
  take (suc n) (x ∷ xs) = x ∷ take n xs

  abbrev pub drop : ℕ → List A → List A
  drop zero xs = xs
  drop (suc n) [] = []
  drop (suc n) (x ∷ xs) = drop n xs

  abbrev pub head? : List A → Option A
  head? [] = none
  head? (x ∷ xs) = some x

  abbrev pub get_last? : List A → Option A
  get_last? [] = none
  get_last? (x ∷ []) = some x
  get_last? (x ∷ y ∷ xs) = get_last? (y ∷ xs)

  pub length-append : (xs ys : List A) → length (xs ++ ys) ≡ length xs + length ys
  length-append [] ys = omega arith
  length-append (x ∷ xs) ys = omega (arith, length-append xs ys)

  pub take-append_le : (n : ℕ) (xs ys : List A) → n ≤ length xs → take n (xs ++ ys) ≡ take n xs
  take-append_le zero xs ys h = refl
  take-append_le (suc n) [] ys h = absurd (omega arith)
  take-append_le (suc n) (x ∷ xs) ys h = ap (◌∷◌ x) (take-append_le n xs ys (omega arith))

  pub take_of_length-le : (l : List A) (n : ℕ) → length l ≤ n → take n l ≡ l
  take_of_length-le [] zero fits = refl
  take_of_length-le [] (suc n) fits = refl
  take_of_length-le (a ∷ l) zero fits = absurd (omega arith)
  take_of_length-le (a ∷ l) (suc n) fits = rw (take_of_length-le l n (omega arith))

  pub length-take : (n : ℕ) (l : List A) → length (take n l) ≤ n
  length-take zero l = omega arith
  length-take (suc n) [] = omega arith
  length-take (suc n) (x ∷ l) = omega (arith, length-take n l)

  -- A prefix is a shorter prefix and the stretch after it.
  pub take-split :
      (a b : ℕ) (xs : List A) → a ≤ b → take b xs ≡ take a xs ++ take (b - a) (drop a xs)
  take-split zero b xs h = ap (λ n. take n xs) (omega arith)
  take-split (suc a) zero xs h = absurd (omega arith)
  take-split (suc a) (suc b) [] h = take-nil (suc b - suc a)
    where
      take-nil : (n : ℕ) → ◌≡◌ {A = List A} [] (take n [])
      take-nil zero = refl
      take-nil (suc n) = refl
  take-split (suc a) (suc b) (x ∷ xs) h =
      ap (◌∷◌ x)
        (take-split a b xs (omega arith) ∙ ap (λ n. take a xs ++ take n (drop a xs)) (omega arith))
