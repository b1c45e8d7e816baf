-- ===== src/Scenarios.antt =====
-- The tracked documents that the adapter reads, and a whole rehearsal of one scenario:
-- `_load_document`, `load_scenarios`, `scenario_summaries` and `run_rehearsal`
-- of src/migration_rehearsal/control_room_adapter.py.
mod Load
mod Rehearse
pub mod Pinned
pub mod Returned
pub mod Served
unfoldable pub use Load.*
unfoldable pub use Rehearse.*
