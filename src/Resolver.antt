-- ===== src/Resolver.antt =====
-- What the configuration resolver asks the device for: code offsets (daemon/android/offsets.rs) and
-- processes (daemon/android/process.rs).
pub mod Manager
pub mod Offsets
pub mod Proc
pub mod Observer
pub mod Uprobe
pub mod Process
mod Tests
