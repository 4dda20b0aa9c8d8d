-- ===== src/Jobs.antt =====
-- internal/jobs: the job model, its database table, the event bus and the worker pool.
pub mod Types
pub mod Store
pub mod Bus
pub mod Queue
