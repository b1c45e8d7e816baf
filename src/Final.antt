-- ===== src/Final.antt =====
-- The final gate that runs once: src/migration_rehearsal/final_once.py, its marker and terminal
-- documents and the marker protocol.
mod Documents
mod Protocol
pub mod Once
pub mod Recall
unfoldable pub use Documents.*
unfoldable pub use Protocol.*
