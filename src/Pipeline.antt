-- ===== src/Pipeline.antt =====
-- The daily delivery of src/chc_rental/pipeline.py: what is planned, and how it is sent.
pub mod Plan
pub mod Send
pub mod Deliver
pub mod Notices
pub mod Items
pub mod Planned
pub mod Once
pub mod Keeps
pub mod Repeats
pub mod Tests
