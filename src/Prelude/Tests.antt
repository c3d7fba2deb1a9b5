-- ===== src/Prelude/Tests.antt =====
-- Boolean tests on the native numbers and on options, and the conditional.
use Prim.Native.Nat.{ℕ, ◌≤◌, ◌<◌, compare, Ordering}
use mathlib.Core.Path.{◌≡◌, refl}
use mathlib.Core.Logic.{◌↔◌, ◌⊎◌, inl, inr}
use mathlib.Core.Bool.{Bool, true, false, ◌&&◌}
use mathlib.Core.Option.{Option, none, some}
use native.Mathlib.Omega.{arith}

abbrev pub ltb : ℕ → ℕ → Bool
ltb a b = elim (compare a b) [ Ordering.lt ↦ true | _ ↦ false ]

abbrev pub leb : ℕ → ℕ → Bool
leb a b = elim (compare a b) [ Ordering.gt ↦ false | _ ↦ true ]

infix 50 ◌==◌
abbrev pub ◌==◌ : ℕ → ℕ → Bool
a == b = elim (compare a b) [ Ordering.eq ↦ true | _ ↦ false ]

infix 1 if◌then◌else◌
abbrev pub if◌then◌else◌ {ℓ} : {A : Type ℓ} → Bool → A → A → A
if true then x else y = x
if false then x else y = y

abbrev pub is_none {ℓ} : {A : Type ℓ} → Option A → Bool
is_none none = true
is_none (some a) = false

abbrev pub is_some {ℓ} : {A : Type ℓ} → Option A → Bool
is_some none = false
is_some (some a) = true

pub ltb→lt : (a b : ℕ) → ltb a b ≡ true → a < b
ltb→lt a b h = ground arith

pub lt→ltb : (a b : ℕ) → a < b → ltb a b ≡ true
lt→ltb a b h = ground arith

pub leb→le : (a b : ℕ) → leb a b ≡ true → a ≤ b
leb→le a b h = ground arith

pub le→leb : (a b : ℕ) → a ≤ b → leb a b ≡ true
le→leb a b h = ground arith

pub ==_iff : (a b : ℕ) → ((a == b) ≡ true) ↔ (a ≡ b)
==_iff a b = ground arith

pub &&-eq_true : (a b : Bool) → (a && b) ≡ true → (a ≡ true) × (b ≡ true)
&&-eq_true a b h = ground arith

-- To split on a computed value and keep the equation.
pub Bool-cases : (b : Bool) → (b ≡ true) ⊎ (b ≡ false)
Bool-cases true = inl refl
Bool-cases false = inr refl

pub Option-cases {ℓ} : {A : Type ℓ} (o : Option A) → (o ≡ none) ⊎ ((a : A) × (o ≡ some a))
Option-cases none = inl refl
Option-cases (some a) = inr (a, refl)
