-- ===== src/Ledger/Observations.antt =====
-- `record_observations` and `query_baseline_states` of src/chc_rental/event_store.py: what one
-- successful source run has seen is written down, and each listing gets the type of its event.
pub mod Seen
pub mod Record
pub mod Persisted
pub mod Replay
pub mod Once
pub mod Tests
unfoldable pub use Seen.*
unfoldable pub use Record.*
