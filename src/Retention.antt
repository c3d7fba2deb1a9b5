-- ===== src/Retention.antt =====
-- The retention of history (src/cryptohawk/storage/retention.py, domain/retention.py).
mod Tables
mod Protected
mod Sweep
pub mod Kept
pub mod Needed
pub mod Linked
unfoldable pub use Tables.*
unfoldable pub use Protected.*
unfoldable pub use Sweep.*
