-- ===== src/Queue.antt =====
-- The durable scan queue (src/cryptohawk/storage/queue.py).
mod Claims
pub mod Balance
pub mod Reads
pub mod Steps
pub mod Candidates
pub mod Calls
pub mod Endings
pub mod Stuck
pub mod Races
pub mod Ownership
pub mod Final
pub mod Lifecycle
pub mod Capacity
mod Leases
mod Enqueue
unfoldable pub use Claims.*
unfoldable pub use Leases.*
unfoldable pub use Enqueue.*
