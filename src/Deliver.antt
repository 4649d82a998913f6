-- ===== src/Deliver.antt =====
-- internal/core/deliver: the delivery engine, its state, its operations and their properties.
pub mod Table
pub mod Lease
pub mod State
pub mod DeadLetters
pub mod Receive
pub mod Marks
pub mod Scan
pub mod Invariant
pub mod Redelivery
pub mod Loops
pub mod Fetching
pub mod Receiving
pub mod Confirm
pub mod Acking
pub mod Reach
pub mod Handed
pub mod Receipts
pub mod Passed
pub mod Losses
mod Tests
