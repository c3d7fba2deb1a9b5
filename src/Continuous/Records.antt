-- ===== src/Continuous/Records.antt =====
-- The tables of snapshots, observations and drift events (src/cryptohawk/storage/continuous.py,
-- src/cryptohawk/domain/continuous.py). A payload is the finding that it encodes.
use crypto_hawk.Prelude.{ℕ, Bool, Option, Text}
use crypto_hawk.Domain.Models.{Severity, QuantumStatus, Primitive}
use crypto_hawk.Domain.Findings.{Finding}

pub data ScanOrigin : Type 0 where
  api schedule : ScanOrigin

pub data DriftEventType : Type 0 where
  introduced resolved changed risk_increased risk_decreased : DriftEventType

pub record ScanSnapshotRecord : Type 0 where
  pub workspace_id : ℕ
  pub asset_id : ℕ
  pub origin : ScanOrigin
  pub schedule_id : Option ℕ
  pub scheduled_for : Option ℕ
  pub completed_at : ℕ
  pub finding_count : ℕ
  pub scanner_version : Text
  pub policy_version : Text
  pub fingerprint_set_hash : ℕ

pub record ObservationStateRecord : Type 0 where
  pub workspace_id : ℕ
  pub asset_id : ℕ
  pub fingerprint : ℕ
  pub active : Bool
  pub first_seen : ℕ
  pub last_seen : ℕ
  pub first_job_id : ℕ
  pub last_job_id : ℕ
  pub occurrence_count : ℕ
  pub risk_score : ℕ
  pub severity : Severity
  pub quantum_status : QuantumStatus
  pub evidence_hash : ℕ
  pub finding_payload : Finding
  pub updated_at : ℕ

pub record ObservationOccurrenceRecord : Type 0 where
  pub job_id : ℕ
  pub workspace_id : ℕ
  pub asset_id : ℕ
  pub fingerprint : ℕ
  pub finding_id : ℕ
  pub observed_at : ℕ
  pub risk_score : ℕ
  pub severity : Severity
  pub quantum_status : QuantumStatus
  pub evidence_hash : ℕ
  pub finding_payload : Finding
  pub scanner_version : Text
  pub policy_version : Text

-- The `details` of an event.
pub record DriftDetails : Type 0 where
  pub algorithm : Text
  pub primitive : Primitive
  pub locator : Option Text
  pub line : Option ℕ
  pub quantum_status : QuantumStatus

pub record DriftEvent : Type 0 where
  pub workspace_id : ℕ
  pub asset_id : ℕ
  pub scan_job_id : ℕ
  pub fingerprint : ℕ
  pub event_type : DriftEventType
  pub previous_risk_score : Option ℕ
  pub new_risk_score : Option ℕ
  pub previous_severity : Option Severity
  pub new_severity : Option Severity
  pub occurred_at : ℕ
  pub details : DriftDetails

pub record ScheduledExecutionRecord : Type 0 where
  pub schedule_id : ℕ
  pub workspace_id : ℕ
  pub asset_id : ℕ
  pub scheduled_for : ℕ
  pub enqueued_at : ℕ
