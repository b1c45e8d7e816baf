-- ===== src/Adapter.antt =====
-- The adapter that runs one rehearsal in a disposable container runtime:
-- src/migration_rehearsal/control_room_adapter.py from `_checked` to `run_rehearsal`.
mod Faults
mod Lookup
mod Local
mod Documents
mod Inspect
mod Child
mod Runtime
mod Cleanup
mod Directory
mod Receipts
pub mod Owned
pub mod Watch
pub mod Watched
pub mod Safety
pub mod Answered
pub mod SettledCleanup
pub mod Settled
pub mod Completes
pub mod Writes
pub mod Recovery
pub use Faults.*
unfoldable pub use Lookup.*
unfoldable pub use Local.*
unfoldable pub use Documents.*
unfoldable pub use Inspect.*
unfoldable pub use Child.*
unfoldable pub use Runtime.*
unfoldable pub use Cleanup.*
unfoldable pub use Directory.*
unfoldable pub use Receipts.*
