-- ===== src/Lib.antt =====
-- The PostgreSQL migration rehearsal: a zero-downtime migration of an invoices table from one
-- amount column to an amount with a currency, and the local control room that rehearses it.
--
-- The parts, and the files that model them (paths from the repository's root):
-- - Database: what migrations/0001_initial.sql to 0005_contract.sql build. Tables is the state, a
--   record of the control row, the catalog, the ledger schema_migrations and the rows of invoices
--   in key order; Transactions is a session (role, advisory lock) with its transactions, which
--   commit as a whole or leave the database as it was; Trigger has the two triggers and the checks
--   of a row; Statements the SQL statements that the program issues, with PostgreSQL's error codes.
-- - Contract: src/migration_rehearsal/contract.py and clients.py. Migrations and Apply are
--   `_apply_migration` and `_bootstrap`, Backfill the batches, Down `attempt_down`, Clients the old
--   and new application and their probes. Spec is the abstract view: a database in a phase is a
--   checkpoint with a list of entries (id, amount, filled or not).
-- - Engine: scripts/control_room_engine.py, which creates a disposable database, runs the path
--   forward, back and forward again on a fixture, observes the result and drops the database.
-- - Http: src/migration_rehearsal/control_room_http.py, the loopback service. How the write of a reply,
--   the read of a body and the record of a failed delivery end are arguments of the POST handler; the
--   other methods' one write succeeds.
-- - Final: src/migration_rehearsal/final_once.py, the one-shot gate: its documents and the marker
--   protocol on the final directory, with a process that may die between two durable writes. Any
--   report validator will do.
-- - Fixtures: of src/migration_rehearsal/control_room_adapter.py `_validate_rows` and the identity checks
--   of the started runtime, with the relay target that they make.
-- - Adapter: the rest of control_room_adapter.py that touches the system. Directory is the control
--   directory, Receipts the cleanup receipt and `record_delivery_failure`, Local, Documents and Inspect
--   what is asked of the container runtime, Child `_run_child`, Runtime and Cleanup the body and the
--   `finally` of `_owned_compose_runtime`. The answers of the system are a record; a run is the list of its
--   calls, its result and the directory that it leaves.
-- - Response: `_response` and `main` of the engine, and `_validate_engine_response` of the adapter.
-- - Scenarios: `load_scenarios`, `scenario_summaries` and `run_rehearsal` of the adapter, which ties
--   Fixtures, Adapter, Response and Engine together.
-- - Relay: src/migration_rehearsal/control_room_runtime/relay.py. Forward is the loop `_forward`, the
--   byte pump of one connection, turn by turn, for any answers of select, recv and send; Lifecycle is
--   `start`, the accept loop, the workers and `close`, as steps in any order on the shared state. A worker's turn runs to its next use of that state; the
--   semaphore, the entry in the set and the start of a new thread are one turn of the accept thread.
-- - Runner: the gate loop `run_gates` of src/migration_rehearsal/final_runner.py, and what `_valid_report`
--   of src/migration_rehearsal/final_once.py asks of its gates.
-- Tests has concrete runs. The control room's POST handler starts the engine, whose database the
-- relay makes reachable; the engine drives the contract's transactions.
--
-- Conventions. Amounts are integers (BIGINT; the clients' additions are checked against its
-- maximum, other statements only copy amounts), ids and counts are natural numbers. A SHA-256
-- digest is a parameter, any function from versions to numbers. SQL is modelled by what the
-- statements in the source do: NULL makes a comparison unknown, a CHECK lets unknown pass. The loop
-- over batches takes fuel: each round but the last fills a row, so one round more than there are
-- unfilled rows is enough. Object ids of databases are chosen by PostgreSQL and are arguments, and so
-- are the JSON decoder, the runner of the service and the validator of final reports.
--
-- Not modelled: lock waits and connection failures of the database, so a transaction runs
-- alone; the endpoint check of the engine; historical_evidence, whose manifest holds a
-- fraction (JSON numbers are integers here); the command lines of the container runtime; in
-- the cleanup receipt, a failure of `stat`, of reading or of closing the directory; the
-- process lifecycle of the control room; the summaries in final reports, the coverage test and
-- the freeze of the final runner; the scripts that build and demonstrate.
pub mod Base
pub mod Database
pub mod Contract
pub mod Engine
pub mod Final
pub mod Fixtures
pub mod Http
pub mod Adapter
pub mod Response
pub mod Scenarios
pub mod Runner
pub mod Relay
pub mod Tests
