-- ===== src/Remediation/Items.antt =====
-- Migration items and the creation of one from a finding
-- (src/cryptohawk/storage/remediation.py, src/cryptohawk/domain/remediation.py). A fingerprint is a
-- number; an item keeps of its source finding the identifier.
use crypto_hawk.Prelude.{
  ℕ, Bool, false, ◌&&◌, ◌||◌, Option, none, some, List, [], ◌∷◌, ◌++◌, Result, ok, err, value_error,
  lookup_error, Text, codes, strip, Table, lookup, insert, take, ltb, ◌==◌, if◌then◌else◌,
}
use crypto_hawk.Domain.Models.{Severity, info, low, medium, high, critical}
use crypto_hawk.Continuous.Records.{ObservationOccurrenceRecord}

pub data RemediationStatus : Type 0 where
  open_status planned in_progress blocked ready_for_verification verified accepted_risk :
      RemediationStatus

pub data RemediationPriority : Type 0 where
  critical_priority high_priority medium_priority low_priority : RemediationPriority

-- The exposure that a verification still finds.
pub record Present : Type 0 where
  pub risk_score : ℕ
  pub severity : Severity
  pub evidence_hash : ℕ

-- What a verification found; `still_present` tells its outcome.
pub record VerificationEvidence : Type 0 where
  pub verification_job_id : ℕ
  pub verification_completed_at : ℕ
  pub source_scan_job_id : ℕ
  pub observation_fingerprint : ℕ
  pub still_present : Option Present

pub record MigrationItemRecord : Type 0 where
  pub workspace_id : ℕ
  pub asset_id : ℕ
  pub observation_fingerprint : ℕ
  pub source_finding_id : ℕ
  pub source_scan_job_id : ℕ
  pub title : Text
  pub owner : Option Text
  pub status : RemediationStatus
  pub priority : RemediationPriority
  pub target_algorithm : Option Text
  pub due_date : Option ℕ
  pub notes : Option Text
  pub acceptance_reason : Option Text
  pub verification_job_id : Option ℕ
  pub verified_at : Option ℕ
  pub verification_evidence : Option VerificationEvidence
  pub created_by : Text
  pub created_at : ℕ
  pub updated_at : ℕ

-- What `create_from_finding` reads of a stored finding and of its scope.
pub record ScopedFinding : Type 0 where
  pub workspace_id : ℕ
  pub managed_asset_id : ℕ
  pub algorithm : Text
  pub asset_name : Text
  pub severity : Severity
  pub migration_target : Option Text

unfoldable pub priority_from_severity : Severity → RemediationPriority
priority_from_severity critical = critical_priority
priority_from_severity high = high_priority
priority_from_severity medium = medium_priority
priority_from_severity low = low_priority
priority_from_severity info = low_priority

-- `value.strip() if value and value.strip() else None`
unfoldable pub non_blank : Option Text → Option Text
non_blank none = none
non_blank (some value) = elim (strip value) [ [] ↦ none | c ∷ s ↦ some (c ∷ s) ]

-- `value[:n] if value else None`
unfoldable pub cut : ℕ → Option Text → Option Text
cut n none = none
cut n (some []) = none
cut n (some (c ∷ s)) = some (take n (c ∷ s))

-- `a or b`, for optional texts
unfoldable pub text_or : Option Text → Option Text → Option Text
text_or none b = b
text_or (some []) b = b
text_or (some (c ∷ s)) b = some (c ∷ s)

-- `ORDER BY observed_at DESC`, and the first row.
unfoldable pub later_of :
    ObservationOccurrenceRecord → Option ObservationOccurrenceRecord → ObservationOccurrenceRecord
later_of a none = a
later_of a (some b) = if ltb a.observed_at b.observed_at then b else a

unfoldable pub latest_occurrence :
    ℕ → ℕ → ℕ → List ObservationOccurrenceRecord → Option ObservationOccurrenceRecord
latest_occurrence workspace asset finding [] = none
latest_occurrence workspace asset finding (o ∷ rest) =
    let found = latest_occurrence workspace asset finding rest in
    if (o.workspace_id == workspace) && ((o.asset_id == asset) && (o.finding_id == finding))
    then some (later_of o found)
    else found

-- The unique constraint on workspace, asset and fingerprint.
unfoldable pub is_taken : ℕ → ℕ → ℕ → Table MigrationItemRecord → Bool
is_taken workspace asset fingerprint [] = false
is_taken workspace asset fingerprint ((id, row) ∷ rows) =
    (row.workspace_id == workspace)
      && ((row.asset_id == asset) && (row.observation_fingerprint == fingerprint))
    || is_taken workspace asset fingerprint rows

-- The arguments of `create_from_finding` that the caller may leave out.
pub record Request : Type 0 where
  pub created_by : Text
  pub owner : Option Text
  pub priority : Option RemediationPriority
  pub target_algorithm : Option Text
  pub due_date : Option ℕ
  pub notes : Option Text

abbrev pub or_priority : Option RemediationPriority → RemediationPriority → RemediationPriority
or_priority none p = p
or_priority (some q) p = q

abbrev pub optional_take : ℕ → Option Text → Option Text
optional_take n none = none
optional_take n (some t) = some (take n t)

unfoldable pub new_item :
    ℕ → Request → ScopedFinding → ObservationOccurrenceRecord → ℕ → MigrationItemRecord
unfolding non_blank cut text_or
new_item finding r f o now = record {
  workspace_id = f.workspace_id;
  asset_id = f.managed_asset_id;
  observation_fingerprint = o.fingerprint;
  source_finding_id = finding;
  source_scan_job_id = o.job_id;
  title = take 300 (codes "Migrate " ++ (f.algorithm ++ (codes " on " ++ f.asset_name)));
  owner = optional_take 200 (non_blank r.owner);
  status = open_status;
  priority = or_priority r.priority (priority_from_severity f.severity);
  target_algorithm = cut 200 (text_or r.target_algorithm f.migration_target);
  due_date = r.due_date;
  notes = non_blank r.notes;
  acceptance_reason = none;
  verification_job_id = none;
  verified_at = none;
  verification_evidence = none;
  created_by = take 200 (strip r.created_by);
  created_at = now;
  updated_at = now;
}

-- `id` is the fresh identifier of the item.
unfoldable pub create_from_finding :
    ℕ
    → ℕ
    → ℕ
    → Request
    → Table ScopedFinding
    → List ObservationOccurrenceRecord
    → ℕ
    → Table MigrationItemRecord
    → Result (Table MigrationItemRecord × MigrationItemRecord)
create_from_finding id workspace finding r findings occurrences now items =
    elim (strip r.created_by) [
      | [] ↦ err value_error
      | c ∷ s ↦ elim (lookup finding findings) [
        | none ↦ err lookup_error
        | some f ↦
            if f.workspace_id == workspace
            then elim (latest_occurrence workspace f.managed_asset_id finding occurrences) [
              | none ↦ err value_error
              | some o ↦
                  if is_taken workspace f.managed_asset_id o.fingerprint items
                  then err value_error
                  else ok (insert id (new_item finding r f o now) items, new_item finding r f o now)
            ]
            else err lookup_error
      ]
    ]
