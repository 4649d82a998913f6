-- ===== src/Delay.antt =====
-- Delayed messages: the staging area that internal/core/produce/produce.go (AppendDelay) fills, and
-- the scheduler of internal/core/delay/delay.go that moves due messages and recalls others.
pub mod Staging
pub mod Scheduler
pub mod Reach
pub mod Recall
pub mod Moving
pub mod Passing
pub mod Tests
