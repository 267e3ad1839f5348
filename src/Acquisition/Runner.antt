-- ===== src/Acquisition/Runner.antt =====
-- `AcquisitionRunner` of acquisition/runner.py.
pub mod Partition
pub mod Source
pub mod Counts
pub mod Totals
pub mod Kept
pub mod Whole
pub mod Steps
pub mod Gate
pub mod Verdict
pub mod Resume
pub mod Returns
