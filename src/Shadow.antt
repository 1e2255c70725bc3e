-- ===== src/Shadow.antt =====
-- Which event of the ledger leads to which row of the outbox: src/chc_rental/outbox.py, and
-- `observe_collection` of src/chc_rental/events.py. The keys of listings, the hashes, the validation
-- of a raw record and what a recipient has seen are fields of `Shadowing`.
pub mod State
pub mod Plan
pub mod Observe
pub mod Queues
pub mod Tests
