-- ===== src/Statsd.antt =====
-- What goes to statsd, and in which form: daemon/android/atom.rs and
-- daemon/ffi/statsd/statssocket.rs.
pub mod Enums
pub mod Paths
pub mod Socket
pub mod Codegen
mod Tests
