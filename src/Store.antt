-- ===== src/Store.antt =====
-- The tables that the repositories share, and the records of a scan job
-- (src/cryptohawk/storage/inventory.py, quotas.py and queue.py, src/cryptohawk/domain/inventory.py).
-- An identifier is a number, a worker id a text, a time a number of microseconds.
use crypto_hawk.Prelude.{
  ℕ, ◌*◌, Bool, true, false, Option, none, some, List, [], ◌∷◌, Text, text_eq, strip, Table,
}

pub data ScanStatus : Type 0 where
  queued running succeeded failed canceled : ScanStatus

pub data ScanKind : Type 0 where
  source repository tls certificate ssh container : ScanKind

pub record ManagedAssetRecord : Type 0 where
  pub workspace_id : ℕ
  pub enabled : Bool

pub record ScanJobRecord : Type 0 where
  pub workspace_id : ℕ
  pub asset_id : ℕ
  pub kind : ScanKind
  pub status : ScanStatus
  pub requested_at : ℕ
  pub started_at : Option ℕ
  pub finished_at : Option ℕ
  pub findings_count : ℕ
  pub error_message : Option Text

pub record ScanQueueRecord : Type 0 where
  pub attempts : ℕ
  pub max_attempts : ℕ
  pub lease_owner : Option Text
  pub lease_expires_at : Option ℕ
  pub last_heartbeat_at : Option ℕ
  pub next_attempt_at : ℕ
  pub cancel_requested : Bool

pub record WorkspaceRuntimeRecord : Type 0 where
  pub active_scans : ℕ
  pub updated_at : ℕ

pub record Db : Type 0 where
  pub workspaces : List ℕ
  pub assets : Table ManagedAssetRecord
  pub jobs : Table ScanJobRecord
  pub queue : Table ScanQueueRecord
  pub runtime : Table WorkspaceRuntimeRecord

-- `timedelta(seconds=n)`
abbrev pub seconds : ℕ → ℕ
seconds n = n * 1000000

abbrev pub is_queued : ScanStatus → Bool
is_queued queued = true
is_queued _ = false

abbrev pub is_running : ScanStatus → Bool
is_running running = true
is_running _ = false

-- `lease_owner == worker_id`
unfoldable pub owned_by : Text → Option Text → Bool
owned_by worker none = false
owned_by worker (some owner) = text_eq owner worker

-- `not worker_id.strip()`
unfoldable pub is_blank : Text → Bool
is_blank t = elim (strip t) [ [] ↦ true | c ∷ s ↦ false ]
