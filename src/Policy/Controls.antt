-- ===== src/Policy/Controls.antt =====
-- `sorted(set(controls))` in `apply` of src/cryptohawk/risk/policy.py.
use crypto_hawk.Prelude.{
  ℕ, zero, suc, ==_iff, ◌<◌, ◌≡◌, refl, Bool, true, false, ◌||◌, List, [], ◌∷◌, arith, ltb, ◌==◌,
  ap, ◌∙◌, Bool-cases, inl, inr, sym,
}
use crypto_hawk.Domain.Findings.{
  Control, detection_confidence, disallowed_family, harvest_now_decrypt_later,
  internet_quantum_exposure, minimum_aes_bits, minimum_rsa_bits, minimum_tls_version,
  quantum_vulnerable, unknown_family,
}
use crypto_hawk.Policy.Evaluator.{control_order, insert_control, sorted_set}

-- `x in controls`
abbrev pub has : Control → List Control → Bool
has x [] = false
has x (y ∷ ys) = (control_order x == control_order y) || has x ys

-- Each control stands before the next in the alphabetical order, so none stands twice.
abbrev pub IsAscending : List Control → Type 0
IsAscending [] = Unit {0}
IsAscending (x ∷ []) = Unit {0}
IsAscending (x ∷ y ∷ ys) = (control_order x < control_order y) × IsAscending (y ∷ ys)

or_swap : (a b c : Bool) → (a || (b || c)) ≡ (b || (a || c))
or_swap a b c = ground arith

or_again :
    (l m n : ℕ) (c : Bool) → (m == n) ≡ true → ((l == n) || c) ≡ ((l == m) || ((l == n) || c))
or_again l m n c h = ground arith

has-insert_control :
    (x y : Control) (ys : List Control)
    → has x (insert_control y ys) ≡ ((control_order x == control_order y) || has x ys)
unfolding insert_control
has-insert_control x y [] = refl
has-insert_control x y (z ∷ zs) = elim (Bool-cases (ltb (control_order y) (control_order z))) [
  | inl lt ↦ rw lt
  | inr ge ↦ rw ge (elim (Bool-cases (control_order y == control_order z)) [
    | inl eq ↦ rw eq (or_again _ _ _ (has x zs) eq)
    | inr ne ↦
        rw (ne, has-insert_control x y zs)
          (or_swap (control_order x == control_order z) (control_order x == control_order y)
            (has x zs))
  ])
]

pub has-sorted_set : (x : Control) (xs : List Control) → has x (sorted_set xs) ≡ has x xs
unfolding sorted_set
has-sorted_set x [] = refl
has-sorted_set x (y ∷ ys) =
    has-insert_control x y (sorted_set ys)
    ∙ ap (λ b. (control_order x == control_order y) || b) (has-sorted_set x ys)

insert_control-IsAscending :
    (x : Control) (ys : List Control) → IsAscending ys → IsAscending (insert_control x ys)
unfolding insert_control
insert_control-IsAscending x [] h = tt
insert_control-IsAscending x (y ∷ []) h = ground arith
insert_control-IsAscending x (y ∷ z ∷ zs) h =
    ground (arith, insert_control-IsAscending x (z ∷ zs) h.1)

pub sorted_set-IsAscending : (xs : List Control) → IsAscending (sorted_set xs)
unfolding sorted_set
sorted_set-IsAscending [] = tt
sorted_set-IsAscending (x ∷ xs) =
    insert_control-IsAscending x (sorted_set xs) (sorted_set-IsAscending xs)

abbrev control_at : ℕ → Control
control_at zero = detection_confidence
control_at (suc zero) = disallowed_family
control_at (suc (suc zero)) = harvest_now_decrypt_later
control_at (suc (suc (suc zero))) = internet_quantum_exposure
control_at (suc (suc (suc (suc zero)))) = minimum_aes_bits
control_at (suc (suc (suc (suc (suc zero))))) = minimum_rsa_bits
control_at (suc (suc (suc (suc (suc (suc zero)))))) = minimum_tls_version
control_at (suc (suc (suc (suc (suc (suc (suc zero))))))) = quantum_vulnerable
control_at (suc (suc (suc (suc (suc (suc (suc (suc n)))))))) = unknown_family

control_at-order : (x : Control) → control_at (control_order x) ≡ x
control_at-order detection_confidence = refl
control_at-order disallowed_family = refl
control_at-order harvest_now_decrypt_later = refl
control_at-order internet_quantum_exposure = refl
control_at-order minimum_aes_bits = refl
control_at-order minimum_rsa_bits = refl
control_at-order minimum_tls_version = refl
control_at-order quantum_vulnerable = refl
control_at-order unknown_family = refl

pub same_control : (x y : Control) → (control_order x == control_order y) ≡ true → x ≡ y
same_control x y h =
    sym (control_at-order x) ∙ ap control_at ((==_iff _ _).0 h) ∙ control_at-order y
