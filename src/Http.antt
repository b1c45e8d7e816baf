-- ===== src/Http.antt =====
-- The loopback service of the control room: src/migration_rehearsal/control_room_http.py.
mod Messages
mod Requests
mod Handler
mod Pages
pub mod Safety
pub mod Answers
pub mod Admission
unfoldable pub use Messages.*
unfoldable pub use Requests.*
unfoldable pub use Pages.*
unfoldable pub use Handler.*
