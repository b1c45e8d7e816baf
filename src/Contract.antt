-- ===== src/Contract.antt =====
-- The rehearsal's own protocol over the database: src/migration_rehearsal/contract.py with the
-- migrations that it applies, and clients.py.
mod Migrations
mod Apply
mod Backfill
mod Down
mod Clients
mod Exercises
pub mod Spec
pub mod Rows
pub mod Marks
pub mod Batch
pub mod Refinement
pub mod Drain
pub mod Idempotence
pub mod Forward
pub mod Backward
pub mod Coexistence
pub mod Rejections
pub mod Guards
pub mod Evidence
pub mod Reforward
pub mod Seed
unfoldable pub use Migrations.*
unfoldable pub use Apply.*
unfoldable pub use Backfill.*
unfoldable pub use Down.*
unfoldable pub use Clients.*
unfoldable pub use Exercises.*
