-- ===== src/Remediation/Works.antt =====
-- The migration items of a database through any sequence of the calls that change them
-- (src/cryptohawk/storage/remediation.py).
use crypto_hawk.Prelude.{
  ℕ, Bool, none, some, ok, arith, lookup, lookup-modify, modify, lookup-insert, insert, Bool-cases,
  Option-cases, Result-cases, inl, inr, ◌≡◌, ◌==◌, List, [], Table,
}
use crypto_hawk.Continuous.Records.{ObservationOccurrenceRecord}
use crypto_hawk.Remediation.Items.{
  MigrationItemRecord, create_from_finding, Request, ScopedFinding, latest_occurrence, new_item,
}
use crypto_hawk.Remediation.Update.{Changes, update_item, update_row}
use crypto_hawk.Remediation.Verify.{EvidenceStore, verify, verify_row}
use crypto_hawk.Remediation.Tracked.{
  IsTracked, update_row-IsTracked, verify_row-IsTracked, new_item-IsTracked,
}

-- A call that returns, and the items after it. The identifier of a new item is fresh.
pub data Work (s t : Table MigrationItemRecord) : Type 0 where
  creates :
      (id workspace finding : ℕ) (r : Request) (findings : Table ScopedFinding)
      (occurrences : List ObservationOccurrenceRecord) (now : ℕ) (new : MigrationItemRecord)
      → lookup id s ≡ none
      → create_from_finding id workspace finding r findings occurrences now s ≡ ok (t, new)
      → Work s t
  updates :
      (workspace id : ℕ) (changes : Changes) (now : ℕ) (new : MigrationItemRecord)
      → update_item workspace id changes now s ≡ ok (t, new)
      → Work s t
  verifies :
      (workspace id job : ℕ) (store : EvidenceStore) (now : ℕ) (new : MigrationItemRecord)
      (resolved : Bool)
      → verify workspace id job store now s ≡ ok (t, new, resolved)
      → Work s t

pub data Works (s : Table MigrationItemRecord) : Table MigrationItemRecord → Type 0 where
  here : Works s s
  next : {t u : Table MigrationItemRecord} → Works s t → Work t u → Works s u

unfoldable pub AllTracked : Table MigrationItemRecord → Type 0
AllTracked items = (j : ℕ) (row : MigrationItemRecord) → lookup j items ≡ some row → IsTracked row

within :
    (items : Table MigrationItemRecord) (id : ℕ) (row : MigrationItemRecord)
    → AllTracked items
    → lookup id items ≡ some row
    → IsTracked row
unfolding AllTracked
within items id row h f = h id row f

AllTracked-modify :
    (id : ℕ) (new : MigrationItemRecord) (items : Table MigrationItemRecord)
    → AllTracked items
    → IsTracked new
    → AllTracked (modify id (λ _. new) items)
unfolding AllTracked
AllTracked-modify id new items h n j row f = elim (Bool-cases (j == id)) [
  | inr other ↦ h j row (ground (arith, other, f, lookup-modify j id (λ _. new) items))
  | inl same ↦ elim (Option-cases (lookup j items)) [
    | inl missing ↦ ground (arith, same, missing, f, lookup-modify j id (λ _. new) items)
    | inr (old, e) ↦
        (let eq : new ≡ row = ground (arith, same, e, f, lookup-modify j id (λ _. new) items) in
          rw (← eq) n)
  ]
]

AllTracked-insert :
    (id : ℕ) (new : MigrationItemRecord) (items : Table MigrationItemRecord)
    → lookup id items ≡ none
    → AllTracked items
    → IsTracked new
    → AllTracked (insert id new items)
unfolding AllTracked
AllTracked-insert id new items fresh h n j row f = elim (Bool-cases (j == id)) [
  | inl same ↦
      (let eq : new ≡ row = ground (arith, same, f, lookup-insert j id new items fresh) in
        rw (← eq) n)
  | inr other ↦ h j row (ground (arith, other, f, lookup-insert j id new items fresh))
]

create-AllTracked :
    (id workspace finding : ℕ) (r : Request) (findings : Table ScopedFinding)
    (occurrences : List ObservationOccurrenceRecord) (now : ℕ) (s t : Table MigrationItemRecord)
    (new : MigrationItemRecord)
    → lookup id s ≡ none
    → create_from_finding id workspace finding r findings occurrences now s ≡ ok (t, new)
    → AllTracked s
    → AllTracked t
unfolding create_from_finding
create-AllTracked id workspace finding r findings occurrences now s t new fresh e h =
    elim (Option-cases (lookup finding findings)) [
      | inl n ↦ ground (arith, n)
      | inr (f, q) ↦
          elim (Option-cases (latest_occurrence workspace f.managed_asset_id finding occurrences)) [
            | inl n ↦ ground (arith, q, n)
            | inr (o, l) ↦
                (let eq : insert id (new_item finding r f o now) s ≡ t = ground (arith, q, l) in
                  rw (← eq) (
                    AllTracked-insert id (new_item finding r f o now) s fresh h
                      (new_item-IsTracked finding r f o now)))
          ]
    ]

update-AllTracked :
    (workspace id : ℕ) (changes : Changes) (now : ℕ) (s t : Table MigrationItemRecord)
    (new : MigrationItemRecord)
    → update_item workspace id changes now s ≡ ok (t, new)
    → AllTracked s
    → AllTracked t
unfolding update_item
update-AllTracked workspace id changes now s t new e h = elim (Option-cases (lookup id s)) [
  | inl n ↦ ground (arith, n)
  | inr (row, f) ↦ elim (Result-cases (update_row changes now row)) [
    | inr (x, r) ↦ ground (arith, f, r)
    | inl (row', r) ↦
        (let eq : modify id (λ _. row') s ≡ t = ground (arith, f, r) in
          rw (← eq) (
            AllTracked-modify id row' s h
              (update_row-IsTracked changes now row row' (within s id row h f) r)))
  ]
]

verify-AllTracked :
    (workspace id job : ℕ) (store : EvidenceStore) (now : ℕ) (s t : Table MigrationItemRecord)
    (new : MigrationItemRecord) (resolved : Bool)
    → verify workspace id job store now s ≡ ok (t, new, resolved)
    → AllTracked s
    → AllTracked t
unfolding verify
verify-AllTracked workspace id job store now s t new resolved e h =
    elim (Option-cases (lookup id s)) [
      | inl n ↦ ground (arith, n)
      | inr (row, f) ↦ elim (Result-cases (verify_row workspace job store now row)) [
        | inr (x, r) ↦ ground (arith, f, r)
        | inl ((row', done), r) ↦
            (let eq : modify id (λ _. row') s ≡ t = ground (arith, f, r) in
              rw (← eq) (
                AllTracked-modify id row' s h (
                  verify_row-IsTracked workspace job store now row (row', done)
                    (within s id row h f) r)))
      ]
    ]

Work-AllTracked : {s t : Table MigrationItemRecord} → Work s t → AllTracked s → AllTracked t
Work-AllTracked (creates id workspace finding r findings occurrences now new fresh e) h =
    create-AllTracked id workspace finding r findings occurrences now _ _ new fresh e h
Work-AllTracked (updates workspace id changes now new e) h =
    update-AllTracked workspace id changes now _ _ new e h
Work-AllTracked (verifies workspace id job store now new resolved e) h =
    verify-AllTracked workspace id job store now _ _ new resolved e h

Works-AllTracked : {s t : Table MigrationItemRecord} → Works s t → AllTracked s → AllTracked t
Works-AllTracked here h = h
Works-AllTracked (next r w) h = Work-AllTracked w (Works-AllTracked r h)

-- In a database that starts without items, whatever calls create, change and verify them, an item
-- has a time of verification when it is verified, and only then, and then also the evidence of a
-- scan in which its exposure is gone; and it has a reason of five characters or more when its risk
-- is accepted, and none otherwise.
pub Works-IsTracked :
    (items : Table MigrationItemRecord) (id : ℕ) (row : MigrationItemRecord)
    → Works [] items
    → lookup id items ≡ some row
    → IsTracked row
unfolding AllTracked lookup
Works-IsTracked items id row r f = Works-AllTracked r (λ j row' e. ground arith) id row f
