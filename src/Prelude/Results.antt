-- ===== src/Prelude/Results.antt =====
-- What a call of Rust code does: it returns `Ok`, it returns `Err`, or it panics.

use mathlib.Core.Path.{◌≡◌, refl}

pub data Outcome {ℓ κ} (E : Type ℓ) (A : Type κ) : Type (ℓ ⊔ κ) where
  ok : A → Outcome E A
  err : E → Outcome E A
  panic : Outcome E A

module _ {ℓ κ μ} {E : Type ℓ} {A : Type κ} {B : Type μ} where
  infixl 5 ◌>>=◌
  abbrev pub ◌>>=◌ : Outcome E A → (A → Outcome E B) → Outcome E B
  ok a >>= f = f a
  err e >>= f = err e
  panic >>= f = panic

module _ {ℓ κ μ} {E : Type ℓ} {F : Type κ} {A : Type μ} where
  -- `Result::map_err`
  abbrev pub map_err : (E → F) → Outcome E A → Outcome F A
  map_err f (ok a) = ok a
  map_err f (err e) = err (f e)
  map_err f panic = panic

-- What a chain of calls that succeeded went through.
module _ {ℓ κ} {E : Type ℓ} {A : Type κ} where
  pub ok_inj : {a b : A} → ◌≡◌ {A = Outcome E A} (ok a) (ok b) → a ≡ b
  ok_inj e = cc

  pub map_err-ok :
      {F : Type ℓ} (f : E → F) (o : Outcome E A) (a : A) → map_err f o ≡ ok a → o ≡ ok a
  map_err-ok f (ok x) a h = cc
  map_err-ok f (err e) a h = cc
  map_err-ok f panic a h = cc

  pub bind-ok :
      {B : Type κ} (o : Outcome E A) (f : A → Outcome E B) (b : B)
      → o >>= f ≡ ok b
      → (a : A) × (o ≡ ok a) × (f a ≡ ok b)
  bind-ok (ok a) f b h = (a, refl, h)
  bind-ok (err e) f b h = absurd cc
  bind-ok panic f b h = absurd cc
