-- ===== src/Examples/Scans.antt =====
-- Two scans of an asset, recorded by src/cryptohawk/storage/continuous.py: a finding of the first is
-- gone in the second, and another is new.
use mathlib.Core.List.{Perm}
use crypto_hawk.Prelude.{
  ℕ, ◌+◌, ◌*◌, true, not, ◌&&◌, Option, none, some, [], ◌∷◌, codes, ◌≡◌, refl, lookup, length,
  one_if,
}
use crypto_hawk.Domain.Models.{high, vulnerable}
use crypto_hawk.Domain.Findings.{Finding}
use crypto_hawk.Risk.{assess}
use crypto_hawk.Examples.Scoring.{found_in, reachable}
use crypto_hawk.Continuous.Records.{ScanSnapshotRecord, ObservationStateRecord, api}
use crypto_hawk.Continuous.{
  Digests, ScanRun, ScanStore, record_successful_scan, stored_events, order_events, has_baseline,
  find_state,
}
use crypto_hawk.Continuous.States.{active_in}
use crypto_hawk.Continuous.Prepared.{mentions}
use crypto_hawk.Continuous.Reports.{events_with, is_introduced, is_resolved}
use crypto_hawk.Continuous.Recorded.{
  has_unique_keys, active-record_successful_scan, events-record_successful_scan,
}
use crypto_hawk.Continuous.Repeated.{record_successful_scan_again}

abbrev line_or_zero : Option ℕ → ℕ
line_or_zero none = 0
line_or_zero (some n) = n

abbrev digests : Digests
digests = record {
  of_fingerprint = λ p. line_or_zero p.line;
  of_evidence = λ p. p.confidence;
  of_observation = λ job fingerprint. job * 1000 + fingerprint;
  of_set = λ fingerprints. length fingerprints;
  event_id = λ e. e.fingerprint;
}

abbrev rsa : Finding
rsa = assess (found_in (codes "RSA") (some 2048)) (some reachable)

abbrev second_scan : ScanRun
second_scan = record {
  workspace_id = 1;
  asset_id = 5;
  scan_job_id = 8;
  scanner_version = codes "1.0";
  policy_version = codes "builtin";
  now = 200;
}

abbrev pub gone_soon : ObservationStateRecord
gone_soon = record {
  workspace_id = 1;
  asset_id = 5;
  fingerprint = 4;
  active = true;
  first_seen = 100;
  last_seen = 100;
  first_job_id = 7;
  last_job_id = 7;
  occurrence_count = 1;
  risk_score = 70;
  severity = high;
  quantum_status = vulnerable;
  evidence_hash = 900000;
  finding_payload = rsa;
  updated_at = 100;
}

abbrev pub first_snapshot : ScanSnapshotRecord
first_snapshot = record {
  workspace_id = 1;
  asset_id = 5;
  origin = api;
  schedule_id = none;
  scheduled_for = none;
  completed_at = 100;
  finding_count = 1;
  scanner_version = codes "1.0";
  policy_version = codes "builtin";
  fingerprint_set_hash = 1;
}

abbrev after_first : ScanStore
after_first = record {
  snapshots = (7, first_snapshot) ∷ [];
  executions = [];
  observed = record { states = gone_soon ∷ []; occurrences = []; events = [] };
}

active-record_successful_scan_example :
    active_in 1 5 4
      (record_successful_scan digests second_scan (rsa ∷ []) after_first).0.observed.states
    ≡ mentions digests 4 (rsa ∷ [])
unfolding lookup
active-record_successful_scan_example =
    active-record_successful_scan digests second_scan (rsa ∷ []) after_first 4 refl

events-record_successful_scan_example :
    let scanned = record_successful_scan digests second_scan (rsa ∷ []) after_first in
    (events_with is_introduced 3 scanned.1
      ≡ one_if (
          has_baseline second_scan after_first
          && (mentions digests 3 (rsa ∷ []) && not (active_in 1 5 3 after_first.observed.states))))
    × (events_with is_resolved 3 scanned.1
        ≡ one_if (
            has_baseline second_scan after_first
            && (active_in 1 5 3 after_first.observed.states
                && not (mentions digests 3 (rsa ∷ [])))))
unfolding lookup has_unique_keys find_state
events-record_successful_scan_example =
    events-record_successful_scan digests second_scan (rsa ∷ []) after_first 3 refl refl

record_successful_scan_again_example :
    let (first, events) = record_successful_scan digests second_scan (rsa ∷ []) after_first in
    let (second, returned) = record_successful_scan digests second_scan [] first in
    (second ≡ first) × Perm returned events × (returned ≡ order_events digests.event_id events)
unfolding lookup stored_events
record_successful_scan_again_example =
    record_successful_scan_again digests second_scan second_scan (rsa ∷ []) [] after_first refl refl
      refl
