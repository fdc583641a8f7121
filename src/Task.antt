-- ===== src/Task.antt =====
-- The tasks of the daemon (daemon/android/task.rs, daemon/android/uprobestats_service.rs).
pub mod State
pub mod Schedule
pub mod Filters
pub mod Attach
pub mod Execute
pub mod HandleTasks
mod Tests
