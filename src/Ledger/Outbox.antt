-- ===== src/Ledger/Outbox.antt =====
-- The outbox of src/chc_rental/event_store.py: every method of `EventStore` that reads or writes
-- the tables outbox and delivery_receipts, but `prune_history`. A method that raises rolls its
-- transaction back, so it hands back the ledger that it was given.
pub mod Rows
pub mod Enqueue
pub mod Operator
pub mod Transport
pub mod Steps
pub mod Moves
pub mod Lifecycle
pub mod Valid
pub mod Receipts
pub mod Cap
pub mod Claim
pub mod Idempotent
pub mod Tests
unfoldable pub use Rows.*
unfoldable pub use Enqueue.*
unfoldable pub use Operator.*
unfoldable pub use Transport.*
