-- ===== src/Relay.antt =====
-- The loopback relay, src/migration_rehearsal/control_room_runtime/relay.py: the byte pump `_forward` of
-- one connection, and the life of the relay with its accept loop and its workers.
mod Forward
mod Lifecycle
pub mod Order
pub mod Completion
pub mod Capacity
pub mod Draining
unfoldable pub use Forward.*
unfoldable pub use Lifecycle.*
