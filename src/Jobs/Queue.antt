-- ===== src/Jobs/Queue.antt =====
-- jobs/queue.py: each method of `JobQueue` over the tables of jobs and attempts, and its laws.
pub mod Enqueue
pub mod Claim
pub mod Complete
pub mod Invariant
pub mod Updates
pub mod Claims
pub mod Candidates
pub mod Leases
pub mod Retries
pub mod Reach
pub mod Lifecycle
pub mod Refinement
