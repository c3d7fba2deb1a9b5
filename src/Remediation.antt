-- ===== src/Remediation.antt =====
-- Migration work and its verification (src/cryptohawk/storage/remediation.py,
-- src/cryptohawk/domain/remediation.py).
mod Items
mod Update
mod Verify
mod Evidence
pub mod Tracked
pub mod Verified
pub mod Works
pub mod Transitions
unfoldable pub use Items.*
unfoldable pub use Update.*
unfoldable pub use Verify.*
