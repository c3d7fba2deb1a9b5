-- ===== src/Knowledge.antt =====
-- The knowledge base of algorithm families (src/cryptohawk/knowledge/algorithms.py).
mod Families
mod Profiles
pub mod Canonical
pub mod Entries
unfoldable pub use Families.*
unfoldable pub use Profiles.*
