-- ===== src/Txn.antt =====
-- Transactional messages: internal/core/txn/txn.go over the records of the store.
pub mod Records
pub mod Manager
pub mod Pairs
pub mod Paired
pub mod Outcomes
pub mod Reach
pub mod Good
pub mod Once
pub mod Kept
pub mod Checks
pub mod Passing
mod Tests
