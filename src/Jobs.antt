-- ===== src/Jobs.antt =====
-- api/src/jobs, and the loop that the jobs' use cases share.
pub mod Batches
pub mod Counted
pub mod Scheduler
