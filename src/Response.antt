-- ===== src/Response.antt =====
-- The engine's response document, `_response` of scripts/control_room_engine.py, and its validation by
-- `_validate_engine_response` of src/migration_rehearsal/control_room_adapter.py.
mod Document
mod Checks
mod Validate
pub mod Rendered
pub mod Accepted
unfoldable pub use Document.*
unfoldable pub use Checks.*
unfoldable pub use Validate.*
