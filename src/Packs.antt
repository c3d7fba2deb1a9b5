-- ===== src/Packs.antt =====
-- Policy packs, their versions and the policy in effect (src/cryptohawk/storage/policy.py).
mod Builtins
mod Versions
pub mod Numbering
pub mod Ready
pub mod Unique
pub mod Effective
unfoldable pub use Builtins.*
unfoldable pub use Versions.*
