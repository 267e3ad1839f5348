-- ===== src/Acquisition.antt =====
-- acquisition/runner.py with the repositories that it writes through.
pub mod Contracts
pub mod Observations
pub mod Runs
pub mod Runner
pub mod Drain
