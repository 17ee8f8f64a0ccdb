-- ===== src/Common/Results.antt =====
-- A Go result `(value, error)`: a value, or an error of the component's own type.
use mathlib.Core.Path.{◌≡◌, refl}

pub data Result {ℓ κ} (E : Type ℓ) (A : Type κ) : Type (ℓ ⊔ κ) where
  ok : A → Result E A
  err : E → Result E A

infixl 5 ◌>>=◌
abbrev pub ◌>>=◌ {ℓ κ μ} :
    {E : Type ℓ} {A : Type κ} {B : Type μ} → Result E A → (A → Result E B) → Result E B
ok a >>= f = f a
err e >>= f = err e

pub ok-eq {ℓ κ} : {E : Type ℓ} {A : Type κ} {a b : A} → ◌≡◌ {A = Result E A} (ok a) (ok b) → a ≡ b
ok-eq h = cc

pub err-eq-ok {ℓ κ} :
    {E : Type ℓ} {A : Type κ} {e : E} {a : A} → ◌≡◌ {A = Result E A} (err e) (ok a) → ⊥
err-eq-ok h = cc

-- What a step passed on, when the whole gives a value.
module _ {ℓ κ μ} {E : Type ℓ} {A : Type κ} {B : Type μ} (next : A → Result E B) where
  pub bind_passed :
      {b : B} (step : Result E A)
      → (step >>= next) ≡ ok b
      → (v : A) × (step ≡ ok v) × (next v ≡ ok b)
  bind_passed (err problem) z = absurd (err-eq-ok z)
  bind_passed (ok v) z = (v, refl, z)
