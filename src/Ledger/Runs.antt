-- ===== src/Ledger/Runs.antt =====
-- Query scopes and source runs of src/chc_rental/event_store.py: every method of `EventStore` that
-- reads or writes the tables query_scopes and source_runs, but `record_observations` and
-- `prune_history`. A method that raises hands back the ledger that it was given, unless it commits
-- before it raises.
pub mod Scopes
pub mod Runs
pub mod Held
pub mod Lease
pub mod Steps
pub mod Life
pub mod Columns
pub mod Open
pub mod Cadence
pub mod Sync
pub mod Tests
unfoldable pub use Scopes.*
unfoldable pub use Runs.*
