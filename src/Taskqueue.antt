-- ===== src/Taskqueue.antt =====
-- taskqueue/: when the pipelines of a program run.
pub mod Cadence
pub mod Scheduler
pub mod Timeouts
pub mod Cascade
