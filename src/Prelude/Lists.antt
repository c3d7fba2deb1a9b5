-- ===== src/Prelude/Lists.antt =====
-- Lists measured in the native numbers, and predicates on lists.
use Prim.Native.Nat.{ℕ, zero, suc, ◌+◌, ◌≤◌}
use mathlib.Core.Path.{◌≡◌, refl}
use mathlib.Core.Logic.{◌⊎◌, inl, inr}
use mathlib.Core.Bool.{Bool, true, false}
use mathlib.Core.List.{List, [], ◌∷◌, ◌++◌}
use native.Mathlib.Omega.{arith}
use crypto_hawk.Prelude.Tests.{◌==◌, if◌then◌else◌}

module _ {ℓ} {A : Type ℓ} where
  abbrev pub length : List A → ℕ
  length [] = 0
  length (x ∷ xs) = suc (length xs)

  abbrev pub take : ℕ → List A → List A
  take zero xs = []
  take (suc n) [] = []
  take (suc n) (x ∷ xs) = x ∷ take n xs

  abbrev pub All {κ} : (A → Type κ) → List A → Type κ
  All P [] = Unit
  All P (x ∷ xs) = P x × All P xs

  pub length-append : (xs ys : List A) → length (xs ++ ys) ≡ length xs + length ys
  length-append [] ys = omega arith
  length-append (x ∷ xs) ys = omega (arith, length-append xs ys)

  pub length-take : (n : ℕ) (xs : List A) → length (take n xs) ≤ n
  length-take zero xs = omega arith
  length-take (suc n) [] = omega arith
  length-take (suc n) (x ∷ xs) = omega (arith, length-take n xs)

-- `x in xs`, for the identifiers.
abbrev pub member : ℕ → List ℕ → Bool
member x [] = false
member x (y ∷ ys) = if x == y then true else member x ys

-- To split on a list that a call returns, and keep the equation.
pub List-cases {ℓ} :
    {A : Type ℓ} (xs : List A) → (xs ≡ []) ⊎ ((x : A) × (ys : List A) × (xs ≡ x ∷ ys))
List-cases [] = inl refl
List-cases (x ∷ ys) = inr (x, ys, refl)
