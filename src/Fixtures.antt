-- ===== src/Fixtures.antt =====
-- What the adapter validates: a fixture's rows and the started runtime, of
-- src/migration_rehearsal/control_room_adapter.py.
mod Rows
pub mod Runtime
pub mod Bounds
unfoldable pub use Rows.*
