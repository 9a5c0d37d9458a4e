-- ===== src/Jobs.antt =====
-- mas/runtime/work_queue.py: the durable workflow worker queue.
pub mod Queue
pub mod Earliest
pub mod Ready
pub mod Claims
pub mod Writes
pub mod Bounds
mod Examples
