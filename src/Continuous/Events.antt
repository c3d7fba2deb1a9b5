-- ===== src/Continuous/Events.antt =====
-- The states, the occurrences and the events that one finding leads to in `record_successful_scan` of
-- src/cryptohawk/storage/continuous.py. Events are without their random identifiers.
use crypto_hawk.Prelude.{
  ℕ, ◌+◌, Bool, true, false, not, ◌&&◌, ◌||◌, Option, none, some, List, [], ◌∷◌, ◌++◌, Text, ltb,
  ◌==◌, if◌then◌else◌,
}
use crypto_hawk.Domain.Models.{
  Severity, info, low, medium, high, critical, QuantumStatus, safe, transition, vulnerable,
}
use crypto_hawk.Domain.Findings.{Finding}
use crypto_hawk.Continuous.Records.{
  ObservationStateRecord, ObservationOccurrenceRecord, DriftEvent, DriftEventType, introduced,
  changed, risk_increased, risk_decreased,
}

-- The arguments of the call, and the time.
pub record ScanRun : Type 0 where
  pub workspace_id : ℕ
  pub asset_id : ℕ
  pub scan_job_id : ℕ
  pub scanner_version : Text
  pub policy_version : Text
  pub now : ℕ

abbrev pub severity_order : Severity → ℕ
severity_order info = 0
severity_order low = 1
severity_order medium = 2
severity_order high = 3
severity_order critical = 4

abbrev pub quantum_order : QuantumStatus → ℕ
quantum_order safe = 0
quantum_order transition = 1
quantum_order vulnerable = 2
quantum_order QuantumStatus.unknown = 3

-- The unique key of a state.
unfoldable pub is_state : ℕ → ℕ → ℕ → ObservationStateRecord → Bool
is_state workspace asset fingerprint s =
    (s.workspace_id == workspace) && ((s.asset_id == asset) && (s.fingerprint == fingerprint))

unfoldable pub find_state : ℕ → ℕ → ℕ → List ObservationStateRecord → Option ObservationStateRecord
find_state workspace asset fingerprint [] = none
find_state workspace asset fingerprint (s ∷ rest) =
    if is_state workspace asset fingerprint s
    then some s
    else find_state workspace asset fingerprint rest

-- The state with its key, changed or added.
unfoldable pub put_state :
    ObservationStateRecord → List ObservationStateRecord → List ObservationStateRecord
put_state new [] = new ∷ []
put_state new (s ∷ rest) =
    if is_state new.workspace_id new.asset_id new.fingerprint s
    then new ∷ rest
    else s ∷ put_state new rest

-- `_new_event`
unfoldable pub new_event :
    ScanRun → ℕ → DriftEventType → Finding → Option ℕ → Option Severity → Bool → DriftEvent
new_event run fingerprint event_type f previous_score previous_severity is_resolved = record {
  workspace_id = run.workspace_id;
  asset_id = run.asset_id;
  scan_job_id = run.scan_job_id;
  fingerprint = fingerprint;
  event_type = event_type;
  previous_risk_score = previous_score;
  new_risk_score = if is_resolved then none else some f.risk.score;
  previous_severity = previous_severity;
  new_severity = if is_resolved then none else some f.risk.severity;
  occurred_at = run.now;
  details = record {
    algorithm = f.observation.algorithm;
    primitive = f.observation.primitive;
    locator = f.observation.evidence.locator;
    line = f.observation.evidence.line;
    quantum_status = f.risk.quantum_status;
  };
}

abbrev pub event_if : Bool → DriftEvent → List DriftEvent
event_if true event = event ∷ []
event_if false event = []

-- `state.evidence_hash != … or state.severity != … or state.quantum_status != …`
unfoldable pub has_changed : ℕ → Finding → ObservationStateRecord → Bool
has_changed hash f s =
    not (s.evidence_hash == hash)
    || (not (severity_order s.severity == severity_order f.risk.severity)
        || not (quantum_order s.quantum_status == quantum_order f.risk.quantum_status))

-- The events of a finding, by the state that was stored, and whether there was a scan before.
unfoldable pub events_of_finding :
    ScanRun → Bool → ℕ → Finding → ℕ → Option ObservationStateRecord → List DriftEvent
events_of_finding run baseline fingerprint f hash none =
    event_if baseline (new_event run fingerprint introduced f none none false)
events_of_finding run baseline fingerprint f hash (some s) =
    let event = λ (event_type : DriftEventType).
      new_event run fingerprint event_type f (some s.risk_score) (some s.severity) false in
    event_if (baseline && not s.active) (event introduced)
    ++ (event_if (baseline && (s.active && has_changed hash f s)) (event changed)
        ++ (event_if (baseline && (s.active && ltb s.risk_score f.risk.score))
              (event risk_increased)
            ++ event_if (baseline && (s.active && ltb f.risk.score s.risk_score))
                (event risk_decreased)))

-- The state after a finding: a new one, or the old one seen again.
unfoldable pub seen_state :
    ScanRun → ℕ → Finding → ℕ → Option ObservationStateRecord → ObservationStateRecord
seen_state run fingerprint f hash none = record {
  workspace_id = run.workspace_id;
  asset_id = run.asset_id;
  fingerprint = fingerprint;
  active = true;
  first_seen = run.now;
  last_seen = run.now;
  first_job_id = run.scan_job_id;
  last_job_id = run.scan_job_id;
  occurrence_count = 1;
  risk_score = f.risk.score;
  severity = f.risk.severity;
  quantum_status = f.risk.quantum_status;
  evidence_hash = hash;
  finding_payload = f;
  updated_at = run.now;
}
seen_state run fingerprint f hash (some s) = record s {
  active = true;
  last_seen = run.now;
  last_job_id = run.scan_job_id;
  occurrence_count = s.occurrence_count + 1;
  risk_score = f.risk.score;
  severity = f.risk.severity;
  quantum_status = f.risk.quantum_status;
  evidence_hash = hash;
  finding_payload = f;
  updated_at = run.now;
}

unfoldable pub occurrence_of : ScanRun → ℕ → Finding → ℕ → ObservationOccurrenceRecord
occurrence_of run fingerprint f hash = record {
  job_id = run.scan_job_id;
  workspace_id = run.workspace_id;
  asset_id = run.asset_id;
  fingerprint = fingerprint;
  finding_id = f.observation.id;
  observed_at = run.now;
  risk_score = f.risk.score;
  severity = f.risk.severity;
  quantum_status = f.risk.quantum_status;
  evidence_hash = hash;
  finding_payload = f;
  scanner_version = run.scanner_version;
  policy_version = run.policy_version;
}

unfoldable pub gone_state : ScanRun → ObservationStateRecord → ObservationStateRecord
gone_state run s = record s { active = false; last_job_id = run.scan_job_id; updated_at = run.now }
