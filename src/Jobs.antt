-- ===== src/Jobs.antt =====
-- jobs/: the leased job queue, and the refresh.
pub mod Queue
pub mod Refresh
