-- ===== src/Auth.antt =====
-- Users, memberships, sessions and API keys (src/cryptohawk/storage/auth.py, domain/auth.py).
mod Records
mod Names
pub mod Slugs
pub mod Edits
pub mod Tokens
mod Sessions
mod Members
mod Keys
pub mod Calls
pub mod Effects
pub mod Tables
pub mod Steady
pub mod Revoked
pub mod Refused
pub mod Grants
pub mod Owners
unfoldable pub use Records.*
unfoldable pub use Names.*
unfoldable pub use Sessions.*
unfoldable pub use Members.*
unfoldable pub use Keys.*
