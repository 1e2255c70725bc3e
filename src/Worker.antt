-- ===== src/Worker.antt =====
-- src/chc_rental/delivery_worker.py: who may be sent an outbox row, and what `_deliver_claimed` does
-- with a row that was claimed. The store's files, the key upgrade of dedup.py, the clock zones of
-- notification_schedule.py and the transport are the fields of `World`.
pub mod State
pub mod Gates
pub mod Deliver
pub mod Promote
pub mod Settled
pub mod Passes
pub mod Reads
pub mod Sends
pub mod Reached
pub mod Due
pub mod Reconcile
pub mod Steps
pub mod Turns
pub mod Bound
pub mod Tests
unfoldable pub use State.*
unfoldable pub use Gates.*
unfoldable pub use Deliver.*
unfoldable pub use Promote.*
