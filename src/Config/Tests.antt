-- ===== src/Config/Tests.antt =====
-- Runs of the resolver on concrete configurations, and the theorems at concrete inputs.
pub mod Data
mod Guardrail
mod Filters
pub mod Resolve
