-- ===== src/Quotas.antt =====
-- Quotas (src/cryptohawk/storage/quotas.py): the slots for running scans, and the rate limits.
mod Slots
mod Limits
pub mod Capacity
pub mod Windows
unfoldable pub use Slots.*
unfoldable pub use Limits.*
