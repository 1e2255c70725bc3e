-- ===== src/Collector.antt =====
-- The incremental collector, src/chc_rental/incremental.py. `State` has its state and what it reads,
-- `Remote` what it does with a run that was asked for, `Start` what it asks for, `Loop` its cycle.
pub mod State
pub mod Remote
pub mod Start
pub mod Loop
pub mod Does
pub mod Parts
pub mod Starts
pub mod Whole
pub mod Named
pub mod Once
pub mod Paid
pub mod Turns
pub mod Bound
pub mod Tests
