-- ===== src/Continuous.antt =====
-- Schedules, snapshots and drift (src/cryptohawk/storage/continuous.py).
pub mod Records
mod Fingerprints
mod Events
mod Drift
pub mod Prepared
pub mod Reports
pub mod Recorded
pub mod Repeated
pub mod States
mod Schedules
pub mod Occurrences
unfoldable pub use Fingerprints.*
unfoldable pub use Events.*
unfoldable pub use Drift.*
unfoldable pub use Schedules.*
