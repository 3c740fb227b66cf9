-- ===== src/Jobs.antt =====
-- internal/jobs: the queue in the table `jobs`, and the worker's steps over it.
pub mod Queue
pub mod Backoff
pub mod Invariant
pub mod Retries
pub mod Dedupe
pub mod Claim
pub mod Life
pub mod Kept
pub mod Tests
