-- ===== src/Runner.antt =====
-- The gates of the final run, `run_gates` of src/migration_rehearsal/final_runner.py, and the part of
-- `_valid_report` of src/migration_rehearsal/final_once.py that reads them.
mod Names
mod Scanners
mod Gates
mod Report
pub mod Order
pub mod Ordered
unfoldable pub use Names.*
unfoldable pub use Scanners.*
unfoldable pub use Gates.*
unfoldable pub use Report.*
