-- ===== src/Jobs.antt =====
-- core/jobs: the declarative job graph and the persistence of the job queue.
pub mod Graph
pub mod Persistence
pub mod Event
pub mod Scheduler
mod Tests
