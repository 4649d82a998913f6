-- ===== src/Retention.antt =====
-- The removal of expired messages: internal/core/retention/retention.go.
pub mod Purge
pub mod Queues
mod Tests
mod Index
