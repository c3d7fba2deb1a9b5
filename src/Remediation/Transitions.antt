-- ===== src/Remediation/Transitions.antt =====
-- The statuses that `update_item` of src/cryptohawk/storage/remediation.py moves an item between.
use crypto_hawk.Prelude.{
  ℕ, Bool, true, some, ok, arith, lookup, lookup-modify_self, modify, Option-cases, Result-cases,
  inl, inr, ◌≡◌, ◌==◌, ◌||◌, Table,
}
use crypto_hawk.Remediation.Items.{MigrationItemRecord, RemediationStatus}
use crypto_hawk.Remediation.Update.{
  Changes, change_status, enter, set_due_date, set_reason, change_fields, update_row, update_item,
  is_allowed, status_order,
}

-- The status after a change is the one before, or one that the table of transitions allows.
unfoldable pub is_move : RemediationStatus → RemediationStatus → Bool
is_move old new = (status_order new == status_order old) || is_allowed old new

change_status-is_move :
    (changes : Changes) (row new : MigrationItemRecord)
    → change_status changes row ≡ ok new
    → is_move row.status new.status ≡ true
unfolding change_status enter is_move
change_status-is_move changes row new e = ground arith

update_row-is_move :
    (changes : Changes) (now : ℕ) (row new : MigrationItemRecord)
    → update_row changes now row ≡ ok new
    → is_move row.status new.status ≡ true
unfolding update_row set_due_date set_reason change_fields
update_row-is_move changes now row new e = elim (Result-cases (change_status changes row)) [
  | inr (x, r) ↦ ground (arith, r)
  | inl (entered, r) ↦ ground (arith, r, change_status-is_move changes row entered r)
]

-- An update that returns is of an item of the workspace, and leaves its status as it was or moves it
-- to one that the table of transitions allows; the item stored after it is the one returned.
pub update_item-is_move :
    (workspace id : ℕ) (changes : Changes) (now : ℕ) (items items' : Table MigrationItemRecord)
    (new : MigrationItemRecord)
    → update_item workspace id changes now items ≡ ok (items', new)
    → (row : MigrationItemRecord) × (lookup id items ≡ some row)
      × (row.workspace_id ≡ workspace)
      × (is_move row.status new.status ≡ true)
      × (lookup id items' ≡ some new)
unfolding update_item
update_item-is_move workspace id changes now items items' new e =
    elim (Option-cases (lookup id items)) [
      | inl n ↦ ground (arith, n)
      | inr (row, f) ↦ elim (Result-cases (update_row changes now row)) [
        | inr (x, r) ↦ ground (arith, f, r)
        | inl (row', r) ↦
            (let table : modify id (λ _. row') items ≡ items' = ground (arith, f, r) in
              let item : row' ≡ new = ground (arith, f, r) in
              (
                row,
                f,
                ground (arith, f, r),
                rw (← item) (update_row-is_move changes now row row' r),
                rw (← table, ← item) (lookup-modify_self id (λ _. row') items row f),
              ))
      ]
    ]
