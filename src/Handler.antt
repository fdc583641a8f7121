-- ===== src/Handler.antt =====
-- The handlers of the data that BPF programs emit (daemon/core/bpf_handler).
pub mod World
pub mod Writes
pub mod Disruptive
pub mod Accessibility
pub mod Logging
pub mod ArtTest
pub mod Bitmap
pub mod Binder
pub mod Tests
