-- ===== src/Network.antt =====
-- The targets that a scan may connect to (src/cryptohawk/security/network.py).
mod Resolve
pub mod Safe
unfoldable pub use Resolve.*
