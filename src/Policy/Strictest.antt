-- ===== src/Policy/Strictest.antt =====
-- The verdict of src/cryptohawk/risk/policy.py against the demands of its controls.
use crypto_hawk.Prelude.{
  ℕ, ◌≤◌, ◌≡◌, refl, Bool, true, false, ◌||◌, ◌&&◌, ◌⊎◌, inl, inr, Option, none, some, List, [],
  ◌∷◌, ◌++◌, arith, is_some, ◌==◌, Bool-cases, ap, sym, ◌∙◌, Option-cases,
}
use mathlib.Core.List.{Memᴰ}
use crypto_hawk.Domain.Models.{CryptoObservation, ScanContext, PolicyDisposition, pass}
use crypto_hawk.Domain.Rules.{CryptoPolicyRules, EffectiveCryptoPolicy}
use crypto_hawk.Domain.Findings.{
  Control, detection_confidence, disallowed_family, harvest_now_decrypt_later,
  internet_quantum_exposure, minimum_aes_bits, minimum_rsa_bits, minimum_tls_version,
  quantum_vulnerable, unknown_family, Finding,
}
use crypto_hawk.Knowledge.{normalize_family}
use crypto_hawk.Risk.{is_vulnerable}
use crypto_hawk.Policy.Evaluator.{
  status_order, max_status, Verdict, family_rule, rsa_rule, aes_rule, tls_rule, quantum_rule,
  unknown_rule, verdict, control_order, apply,
}
use crypto_hawk.Policy.Controls.{
  has, same_control, IsAscending, has-sorted_set, sorted_set-IsAscending,
}
use crypto_hawk.Policy.Demands.{
  demand, raise, extend, family_rule-Adds, rsa_rule-Adds, aes_rule-Adds, tls_rule-Adds,
  unknown_rule-Adds, confidence_rule-Adds, quantum_rule_status, quantum_rule_controls,
}

-- The controls in the order in which the method looks at them.
abbrev pub code_order : List Control
code_order =
    disallowed_family ∷ minimum_rsa_bits ∷ minimum_aes_bits ∷ minimum_tls_version
    ∷ quantum_vulnerable ∷ internet_quantum_exposure ∷ harvest_now_decrypt_later ∷ unknown_family
    ∷ detection_confidence ∷ []

abbrev Demand : Type 0
Demand = Control → Option PolicyDisposition

abbrev pub raise_all : Demand → PolicyDisposition → List Control → PolicyDisposition
raise_all d s [] = s
raise_all d s (x ∷ xs) = raise_all d (raise s (d x)) xs

abbrev pub extend_all : Demand → List Control → List Control → List Control
extend_all d cs [] = cs
extend_all d cs (x ∷ xs) = extend_all d (extend cs x (d x)) xs

module _ (o : CryptoObservation) (c : ScanContext) (rules : CryptoPolicyRules)
    (vulnerable : Bool) where
  pub verdict_folds :
      ((verdict o c rules vulnerable).status
        ≡ raise_all (demand o c rules vulnerable) pass code_order)
      × ((verdict o c rules vulnerable).controls
          ≡ extend_all (demand o c rules vulnerable) [] code_order)
  unfolding verdict
  verdict_folds =
      let family = normalize_family o.family in
      let v₀ : Verdict = record { status = pass; reasons = []; controls = [] } in
      let v₁ = family_rule o c rules family v₀ in
      let v₂ = rsa_rule o c rules family v₁ in
      let v₃ = aes_rule o c rules family v₂ in
      let v₄ = tls_rule o c rules v₃ in
      let v₅ = quantum_rule o c rules vulnerable v₄ in
      let v₆ = unknown_rule o c rules family v₅ in
      let a₁ = family_rule-Adds o c rules vulnerable v₀ in
      let a₂ = rsa_rule-Adds o c rules vulnerable v₁ in
      let a₃ = aes_rule-Adds o c rules vulnerable v₂ in
      let a₄ = tls_rule-Adds o c rules vulnerable v₃ in
      let a₆ = unknown_rule-Adds o c rules vulnerable v₅ in
      let a₇ = confidence_rule-Adds o c rules vulnerable v₆ in
      (
        cc (
          a₁.status,
          a₂.status,
          a₃.status,
          a₄.status,
          quantum_rule_status o c rules vulnerable v₄,
          a₆.status,
          a₇.status,
        ),
        cc (
          a₁.controls,
          a₂.controls,
          a₃.controls,
          a₄.controls,
          quantum_rule_controls o c rules vulnerable v₄,
          a₆.controls,
          a₇.controls,
        ),
      )

le-raise :
    (s : PolicyDisposition) (d : Option PolicyDisposition)
    → status_order s ≤ status_order (raise s d)
unfolding max_status
le-raise s none = omega arith
le-raise s (some d) = ground arith

demand-le-raise : (s d : PolicyDisposition) → status_order d ≤ status_order (raise s (some d))
unfolding max_status
demand-le-raise s d = ground arith

raise_cases :
    (s : PolicyDisposition) (d : Option PolicyDisposition)
    → (raise s d ≡ s) ⊎ (d ≡ some (raise s d))
unfolding max_status
raise_cases s none = inl refl
raise_cases s (some d) = ground arith

or_false : (b : Bool) → b ≡ (b || false)
or_false b = ground arith

or_assoc : (a b c : Bool) → (a || (b || c)) ≡ ((a || b) || c)
or_assoc a b c = ground arith

or_and : (a b c e : Bool) → ((a || (b && e)) || (c && e)) ≡ (a || ((b || c) && e))
or_and a b c e = ground arith

has-snoc :
    (x y : Control) (cs : List Control)
    → has x (cs ++ y ∷ []) ≡ (has x cs || (control_order x == control_order y))
has-snoc x y [] = sym (or_false (control_order x == control_order y))
has-snoc x y (z ∷ zs) =
    ap (λ b. (control_order x == control_order z) || b) (has-snoc x y zs)
    ∙ or_assoc (control_order x == control_order z) (has x zs) (control_order x == control_order y)

has-extend_found :
    (x y : Control) (cs : List Control) (d : Option PolicyDisposition) (b : Bool)
    → (control_order x == control_order y) ≡ true
    → b ≡ is_some d
    → has x (extend cs y d) ≡ (has x cs || ((control_order x == control_order y) && b))
has-extend_found x y cs none b e h = rw (e, h) (or_false (has x cs))
has-extend_found x y cs (some d) b e h = rw h (has-snoc x y cs ∙ rw e)

has-extend_other :
    (x y : Control) (cs : List Control) (d : Option PolicyDisposition) (b : Bool)
    → (control_order x == control_order y) ≡ false
    → has x (extend cs y d) ≡ (has x cs || ((control_order x == control_order y) && b))
has-extend_other x y cs none b e = rw e (or_false (has x cs))
has-extend_other x y cs (some d) b e = has-snoc x y cs ∙ rw e

-- How severe a demand is, in the order of the statuses; no demand is as mild as `pass`.
abbrev pub demanded_level : Option PolicyDisposition → ℕ
demanded_level none = 0
demanded_level (some e) = status_order e

module _ (d : Demand) where
  le-raise_all :
      (s : PolicyDisposition) (xs : List Control) → status_order s ≤ status_order (raise_all d s xs)
  le-raise_all s [] = omega arith
  le-raise_all s (x ∷ xs) = omega (arith, le-raise s (d x), le-raise_all (raise s (d x)) xs)

  demand-le-raise_all :
      (s : PolicyDisposition) (xs : List Control) (x : Control) (e : PolicyDisposition)
      → Memᴰ x xs
      → d x ≡ some e
      → status_order e ≤ status_order (raise_all d s xs)
  demand-le-raise_all s [] x e m h = elim m [ ]
  demand-le-raise_all s (y ∷ ys) x e (Memᴰ.head same) h =
      let here : status_order e ≤ status_order (raise s (d y)) =
        rw (← same, h) (demand-le-raise s e) in
      omega (arith, here, le-raise_all (raise s (d y)) ys)
  demand-le-raise_all s (y ∷ ys) x e (Memᴰ.tail m) h =
      demand-le-raise_all (raise s (d y)) ys x e m h

  raise_all_cases :
      (s : PolicyDisposition) (xs : List Control)
      → (raise_all d s xs ≡ s) ⊎ ((x : Control) × (d x ≡ some (raise_all d s xs)))
  raise_all_cases s [] = inl refl
  raise_all_cases s (x ∷ xs) = elim (raise_all_cases (raise s (d x)) xs) [
    | inl same ↦ elim (raise_cases s (d x)) [
      | inl kept ↦ inl (same ∙ kept)
      | inr raised ↦ inr (x, raised ∙ ap some (sym same))
    ]
    | inr later ↦ inr later
  ]

  has-extend :
      (x y : Control) (cs : List Control)
      → has x (extend cs y (d y))
        ≡ (has x cs || ((control_order x == control_order y) && is_some (d x)))
  has-extend x y cs = elim (Bool-cases (control_order x == control_order y)) [
    | inl e ↦
        has-extend_found x y cs (d y) (is_some (d x)) e
          (ap (λ z. is_some (d z)) (same_control x y e))
    | inr e ↦ has-extend_other x y cs (d y) (is_some (d x)) e
  ]

  has-extend_all :
      (x : Control) (cs xs : List Control)
      → has x (extend_all d cs xs) ≡ (has x cs || (has x xs && is_some (d x)))
  has-extend_all x cs [] = or_false (has x cs)
  has-extend_all x cs (y ∷ ys) =
      has-extend_all x (extend cs y (d y)) ys
      ∙ ap (λ b. b || (has x ys && is_some (d x))) (has-extend x y cs)
      ∙ or_and (has x cs) (control_order x == control_order y) (has x ys) (is_some (d x))

every : (x : Control) → Memᴰ x code_order
every disallowed_family = Memᴰ.head refl
every minimum_rsa_bits = Memᴰ.tail (Memᴰ.head refl)
every minimum_aes_bits = Memᴰ.tail (Memᴰ.tail (Memᴰ.head refl))
every x = search (Memᴰ.head, Memᴰ.tail) depth 12

every_has : (x : Control) → has x code_order ≡ true
every_has disallowed_family = refl
every_has x = refl

level-le :
    (d : Demand) (x : Control) (status : PolicyDisposition)
    → ((e : PolicyDisposition) → d x ≡ some e → status_order e ≤ status_order status)
    → demanded_level (d x) ≤ status_order status
level-le d x status h = elim (Option-cases (d x)) [
  | inl e ↦ rw e (omega arith)
  | inr (e, q) ↦ rw q (h e q)
]

-- The status of the overlay is the strictest demand: no control demands more, and it is `pass` or
-- what some control demands.
pub apply-strictest :
    (f : Finding) (c : ScanContext) (policy : EffectiveCryptoPolicy)
    → let d = demand f.observation c policy.version.rules (is_vulnerable f.risk.quantum_status) in
      (status : PolicyDisposition) × ((apply f c policy).risk.policy_status ≡ some status)
      × ((x : Control) → demanded_level (d x) ≤ status_order status)
      × ((status ≡ pass) ⊎ ((x : Control) × (d x ≡ some status)))
unfolding apply
apply-strictest f c policy =
    let vulnerable = is_vulnerable f.risk.quantum_status in
    let rules = policy.version.rules in
    let d = demand f.observation c rules vulnerable in
    (
      raise_all d pass code_order,
      ap some (verdict_folds f.observation c rules vulnerable).0,
      λ x.
          level-le d x (raise_all d pass code_order)
            (λ e h. demand-le-raise_all d pass code_order x e (every x) h),
      raise_all_cases d pass code_order,
    )

-- The controls of the overlay are exactly those that demand something, each once, in the
-- alphabetical order of their names.
pub apply-controls :
    (f : Finding) (c : ScanContext) (policy : EffectiveCryptoPolicy)
    → let d = demand f.observation c policy.version.rules (is_vulnerable f.risk.quantum_status) in
      ((x : Control) → has x (apply f c policy).risk.policy_controls ≡ is_some (d x))
      × IsAscending (apply f c policy).risk.policy_controls
unfolding apply
apply-controls f c policy =
    let vulnerable = is_vulnerable f.risk.quantum_status in
    let rules = policy.version.rules in
    let v = verdict f.observation c rules vulnerable in
    let d = demand f.observation c rules vulnerable in
    (
      λ x.
          has-sorted_set x v.controls
          ∙ ap (has x) (verdict_folds f.observation c rules vulnerable).1
          ∙ has-extend_all d x [] code_order
          ∙ ap (λ b. b && is_some (d x)) (every_has x),
      sorted_set-IsAscending v.controls,
    )
