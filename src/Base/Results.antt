-- ===== src/Base/Results.antt =====
-- Go's (value, error) pairs: a value, or an error of the component's own type.
use mathlib.Core.Path.{◌≡◌, refl}
use native.Mathlib.Omega.{arith}

pub data Result {ℓ κ} (E : Type κ) (A : Type ℓ) : Type (ℓ ⊔ κ) where
  ok : A → Result E A
  err : E → Result E A

infixl 5 ◌>>=◌
abbrev pub ◌>>=◌ {ℓ κ μ} :
    {E : Type μ} {A : Type ℓ} {B : Type κ} → Result E A → (A → Result E B) → Result E B
ok a >>= f = f a
err e >>= f = err e

module _ {ℓ κ} {E W : Type 0} {A : Type ℓ} {B : Type κ} where
  -- What goes on with the value and the state, where an error ends the function.
  unfoldable pub and_on : (A → W → Result E B × W) → Result E A × W → Result E B × W
  and_on f (err e, w) = (err e, w)
  and_on f (ok a, w) = f a w

  pub and_on-ok :
      (f : A → W → Result E B × W) (r : Result E A × W) (b : B)
      → (and_on f r).0 ≡ ok b
      → (a : A) × ((r.0 ≡ ok a) × ((f a r.1).0 ≡ ok b))
  unfolding and_on
  and_on-ok f (err e, w) b h = absurd (ground arith)
  and_on-ok f (ok a, w) b h = (a, (refl, h))

  pub and_on-cong :
      (f g : A → W → Result E B × W) (r : Result E A × W)
      → ((a : A) → r.0 ≡ ok a → f a r.1 ≡ g a r.1)
      → and_on f r ≡ and_on g r
  unfolding and_on
  and_on-cong f g (err e, w) h = refl
  and_on-cong f g (ok a, w) h = h a refl
