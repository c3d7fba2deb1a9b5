-- ===== src/Risk.antt =====
-- The deterministic risk score (src/cryptohawk/risk/engine.py).
mod Engine
pub mod Bounds
pub mod Families
pub mod Monotone
unfoldable pub use Engine.*
