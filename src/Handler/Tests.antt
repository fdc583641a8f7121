-- ===== src/Handler/Tests.antt =====
-- The handlers in a world that answers everything.
pub mod Data
mod Bitmaps
mod Grants
pub mod Apps
mod Configured
