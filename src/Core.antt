-- ===== src/Core.antt =====
-- internal/core: the task model, its output paths, and the scheduler.
pub mod Task
pub mod Output
pub mod Cleanup
pub mod State
pub mod Scheduler
