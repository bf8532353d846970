-- ===== src/Base/Results.antt =====
-- Go's (value, error) results, with the monad that early returns follow.
use mathlib.Core.Logic.{◌⊎◌, inl, inr}
use mathlib.Core.Path.{◌≡◌, refl}

pub data Result {ℓ κ} (E : Type ℓ) (A : Type κ) : Type (ℓ ⊔ κ) where
  ok : A → Result E A
  err : E → Result E A

infixl 5 ◌>>=◌
abbrev pub ◌>>=◌ {ℓ κ μ} :
    {E : Type ℓ} {A : Type κ} {B : Type μ} → Result E A → (A → Result E B) → Result E B
ok a >>= f = f a
err e >>= f = err e

-- `fmt.Errorf("…: %w", err)`: an error wrapped with what is known of the call.
abbrev pub wrap {ℓ κ μ} : {E : Type ℓ} {F : Type κ} {A : Type μ} → (E → F) → Result E A → Result F A
wrap f (ok a) = ok a
wrap f (err e) = err (f e)

module _ {ℓ κ μ} {E : Type ℓ} {A : Type κ} {B : Type μ} where
  -- Inversion of a successful bind.
  pub >>=-eq-ok :
      (r : Result E A) (rest : A → Result E B) {out : B}
      → (r >>= rest) ≡ ok out
      → (value : A) × (r ≡ ok value) × (rest value ≡ ok out)
  >>=-eq-ok (ok value) rest h = (value, refl, h)
  >>=-eq-ok (err e) rest h = cc

-- The property of a result that is no error, and the one that rules errors out too.
abbrev pub IfOk {ℓ κ μ} : {E : Type ℓ} {A : Type κ} → (A → Type μ) → Result E A → Type μ
IfOk P (ok a) = P a
IfOk P (err e) = Unit

abbrev pub Returns {ℓ κ} : {E : Type ℓ} {A : Type κ} → (A → Type 0) → Result E A → Type 0
Returns P (ok a) = P a
Returns P (err e) = ⊥

pub Result-cases {ℓ κ} :
    {E : Type ℓ} {A : Type κ} (r : Result E A) → ((a : A) × (r ≡ ok a)) ⊎ ((e : E) × (r ≡ err e))
Result-cases (ok a) = inl (a, refl)
Result-cases (err e) = inr (e, refl)

pub ok-injective {ℓ κ} :
    {E : Type ℓ} {A : Type κ} {a b : A} → ◌≡◌ {A = Result E A} (ok a) (ok b) → a ≡ b
ok-injective h = cc
