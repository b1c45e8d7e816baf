-- ===== src/Engine.antt =====
-- The child engine of the control room, scripts/control_room_engine.py: it creates a disposable
-- database, runs the whole migration path on a fixture, observes the result and drops the database.
mod Statements
mod Run
mod Server
pub mod Stages
pub mod Rehearsal
unfoldable pub use Statements.*
unfoldable pub use Run.*
unfoldable pub use Server.*
