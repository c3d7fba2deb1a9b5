-- ===== src/Prelude/Outcome.antt =====
-- What an operation raises, and the result of an operation that may raise.
use mathlib.Core.Path.{◌≡◌, refl}
use mathlib.Core.Logic.{◌⊎◌, inl, inr}
use native.Mathlib.Omega.{arith}

-- The exceptions of the repositories, by the class that they are raised with.
pub data Error : Type 0 where
  value_error lookup_error runtime_error capacity_exceeded permission_error integrity_error : Error

pub data Result {ℓ} (Value : Type ℓ) : Type ℓ where
  ok : Value → Result Value
  err : Error → Result Value

-- To split on what a call returns or raises, and keep the equation.
pub Result-cases {ℓ} :
    {A : Type ℓ} (r : Result A) → ((a : A) × (r ≡ ok a)) ⊎ ((e : Error) × (r ≡ err e))
Result-cases (err e) = inr (e, refl)
Result-cases (ok a) = inl (a, refl)

-- The next statement runs when the one before it has not raised.
infixl 5 ◌>>=◌
abbrev pub ◌>>=◌ {ℓ κ} :
    {Given : Type ℓ} {Next : Type κ} → Result Given → (Given → Result Next) → Result Next
err raised >>= next = err raised
ok value >>= next = next value

-- A chain that returns has a first statement that returns.
pub bind-ok {ℓ κ} :
    {Given : Type ℓ} {Next : Type κ} (r : Result Given) (next : Given → Result Next) (b : Next)
    → (r >>= next) ≡ ok b
    → (a : Given) × (r ≡ ok a) × (next a ≡ ok b)
bind-ok (err x) next b e = ground arith
bind-ok (ok a) next b e = (a, refl, e)
