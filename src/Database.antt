-- ===== src/Database.antt =====
-- The database that the migrations build (migrations/*.sql), and one session's transactions on it.
mod Tables
mod Transactions
mod Trigger
mod Statements
pub mod Pairs
pub mod Phases
unfoldable pub use Tables.*
unfoldable pub use Transactions.*
unfoldable pub use Trigger.*
unfoldable pub use Statements.*
