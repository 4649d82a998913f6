-- ===== src/Meta.antt =====
-- internal/core/meta/meta.go: names, and the registry of topics and groups.
pub mod Names
pub mod NameMap
pub mod Registry
pub mod Durations
pub mod Upkeep
pub mod Consistency
mod Tests
