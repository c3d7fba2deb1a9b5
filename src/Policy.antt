-- ===== src/Policy.antt =====
-- The organization's policy overlay (src/cryptohawk/risk/policy.py).
mod Evaluator
pub mod Controls
pub mod Demands
pub mod Strictest
pub mod Strictness
unfoldable pub use Evaluator.*
