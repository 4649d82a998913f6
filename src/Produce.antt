-- ===== src/Produce.antt =====
-- The producer of internal/core/produce/produce.go: Append and AppendBatch of ordinary messages.
pub mod Append
pub mod Choice
pub mod Offsets
pub mod Tests
