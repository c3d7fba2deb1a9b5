-- ===== src/Remediation/Update.antt =====
-- `update_item` of src/cryptohawk/storage/remediation.py. An exception leaves the stored row as it
-- was, since nothing is committed.
use crypto_hawk.Prelude.{
  ℕ, Bool, true, false, ◌||◌, Option, none, some, List, [], ◌∷◌, Result, ok, err, ◌>>=◌,
  value_error, lookup_error, Text, strip, Table, lookup, modify, take, length, ltb, ◌==◌,
  if◌then◌else◌,
}
use crypto_hawk.Remediation.Items.{
  MigrationItemRecord, RemediationStatus, open_status, planned, in_progress, blocked,
  ready_for_verification, verified, accepted_risk, RemediationPriority,
}

-- A value of the `changes` dictionary: `None`, a value of the expected type, or another one.
pub data Value (A : Type 0) : Type 0 where
  null : Value A
  given : A → Value A
  other : Value A

-- The dictionary: a field that is absent is `none`. A status or a priority is one of the enumeration.
pub record Changes : Type 0 where
  pub unknown_fields : List Text
  pub owner : Option (Option Text)
  pub status : Option (Option RemediationStatus)
  pub priority : Option (Option RemediationPriority)
  pub target_algorithm : Option (Option Text)
  pub due_date : Option (Value ℕ)
  pub notes : Option (Option Text)
  pub acceptance_reason : Option (Value Text)

-- `_ALLOWED_TRANSITIONS`
unfoldable pub is_allowed : RemediationStatus → RemediationStatus → Bool
is_allowed open_status planned = true
is_allowed open_status in_progress = true
is_allowed open_status accepted_risk = true
is_allowed planned in_progress = true
is_allowed planned blocked = true
is_allowed planned accepted_risk = true
is_allowed in_progress blocked = true
is_allowed in_progress ready_for_verification = true
is_allowed in_progress accepted_risk = true
is_allowed blocked in_progress = true
is_allowed blocked accepted_risk = true
is_allowed ready_for_verification in_progress = true
is_allowed ready_for_verification blocked = true
is_allowed verified open_status = true
is_allowed accepted_risk open_status = true
is_allowed accepted_risk planned = true
is_allowed _ _ = false

abbrev pub status_order : RemediationStatus → ℕ
status_order open_status = 0
status_order planned = 1
status_order in_progress = 2
status_order blocked = 3
status_order ready_for_verification = 4
status_order verified = 5
status_order accepted_risk = 6

abbrev pub is_verified : RemediationStatus → Bool
is_verified verified = true
is_verified _ = false

abbrev pub is_accepted : RemediationStatus → Bool
is_accepted accepted_risk = true
is_accepted _ = false

-- `isinstance(reason, str)` and `len(reason.strip()) >= 5`, with the stripped reason
unfoldable pub valid_reason : Value Text → Result Text
valid_reason null = err value_error
valid_reason other = err value_error
valid_reason (given reason) =
    if ltb (length (strip reason)) 5 then err value_error else ok (strip reason)

abbrev pub stored_reason : Option Text → Value Text
stored_reason none = null
stored_reason (some reason) = given reason

-- `changes.get("acceptance_reason", row.acceptance_reason)`
unfoldable pub reason_to_use : Changes → MigrationItemRecord → Value Text
reason_to_use changes row = elim changes.acceptance_reason [
  | none ↦ stored_reason row.acceptance_reason
  | some value ↦ value
]

abbrev pub accept :
    RemediationStatus → MigrationItemRecord → Result Text → Result MigrationItemRecord
accept target row (err e) = err e
accept target row (ok reason) =
    ok (record row { status = target; acceptance_reason = some reason; verified_at = none })

-- The new status, with what it does to the acceptance reason and to the time of verification.
unfoldable pub enter :
    RemediationStatus → Changes → MigrationItemRecord → Result MigrationItemRecord
enter target changes row =
    if is_accepted target
    then accept target row (valid_reason (reason_to_use changes row))
    else ok (record row { status = target; acceptance_reason = none; verified_at = none })

unfoldable pub change_status : Changes → MigrationItemRecord → Result MigrationItemRecord
change_status changes row = elim changes.status [
  | none ↦ ok row
  | some wanted ↦ elim wanted [
    | none ↦ ok row
    | some target ↦
        if is_verified target
        then err value_error
        else if (status_order target == status_order row.status) || is_allowed row.status target
        then enter target changes row
        else err value_error
  ]
]

-- `str(value).strip() if value else None`
unfoldable pub stripped : Option Text → Option Text
stripped none = none
stripped (some []) = none
stripped (some (c ∷ s)) = some (strip (c ∷ s))

abbrev pub first_200 : Option Text → Option Text
first_200 none = none
first_200 (some t) = some (take 200 t)

abbrev pub or_old {ℓ} : {A : Type ℓ} → Option A → A → A
or_old none old = old
or_old (some new) old = new

abbrev pub flat {ℓ} : {A : Type ℓ} → Option (Option A) → Option A
flat none = none
flat (some o) = o

-- The fields that are set without a check.
unfoldable pub change_fields : Changes → MigrationItemRecord → MigrationItemRecord
change_fields changes row = record row {
  owner = elim changes.owner [ none ↦ row.owner | some value ↦ first_200 (stripped value) ];
  priority = or_old (flat changes.priority) row.priority;
  target_algorithm = elim changes.target_algorithm [
    | none ↦ row.target_algorithm
    | some value ↦ first_200 (stripped value)
  ];
  notes = elim changes.notes [ none ↦ row.notes | some value ↦ stripped value ];
}

unfoldable pub set_due_date : Option (Value ℕ) → MigrationItemRecord → Result MigrationItemRecord
set_due_date none row = ok row
set_due_date (some null) row = ok (record row { due_date = none })
set_due_date (some (given day)) row = ok (record row { due_date = some day })
set_due_date (some other) row = err value_error

abbrev pub restate : MigrationItemRecord → Result Text → Result MigrationItemRecord
restate row (err e) = err e
restate row (ok reason) = ok (record row { acceptance_reason = some reason })

unfoldable pub set_reason : Option (Value Text) → MigrationItemRecord → Result MigrationItemRecord
set_reason none row = ok row
set_reason (some value) row =
    if is_accepted row.status then restate row (valid_reason value) else ok row

-- The whole change of one row.
unfoldable pub update_row : Changes → ℕ → MigrationItemRecord → Result MigrationItemRecord
update_row changes now row = do
  entered ← change_status changes row
  dated ← set_due_date changes.due_date (change_fields changes entered)
  reasoned ← set_reason changes.acceptance_reason dated
  ok (record reasoned { updated_at = now })

abbrev pub keep_row :
    ℕ
    → Table MigrationItemRecord
    → Result MigrationItemRecord
    → Result (Table MigrationItemRecord × MigrationItemRecord)
keep_row id items (err e) = err e
keep_row id items (ok row) = ok (modify id (λ _. row) items, row)

unfoldable pub update_item :
    ℕ
    → ℕ
    → Changes
    → ℕ
    → Table MigrationItemRecord
    → Result (Table MigrationItemRecord × MigrationItemRecord)
update_item workspace id changes now items = elim changes.unknown_fields [
  | field ∷ fields ↦ err value_error
  | [] ↦ elim (lookup id items) [
    | none ↦ err lookup_error
    | some row ↦
        if row.workspace_id == workspace
        then keep_row id items (update_row changes now row)
        else err lookup_error
  ]
]
