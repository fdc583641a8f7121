-- ===== src/Config.antt =====
-- Resolving a configuration into probes to attach (daemon/core/config_resolver.rs).
pub mod Proto
pub mod Resolved
pub mod Guardrail
pub mod Flags
pub mod Filters
pub mod Resolve
pub mod Tests
