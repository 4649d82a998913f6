-- ===== src/Seglog.antt =====
-- The segmented raft log of internal/cluster/seglog: the frames of frame.go, the scan of a segment,
-- and the log of seglog.go over its segment files.
pub mod Frame
pub mod Frames
pub mod Scan
pub mod Replay
pub mod Log
pub mod Recovery
pub mod Live
pub mod Tests
pub mod Disk
pub mod Sound
pub mod Rotation
pub mod Appending
pub mod Opening
pub mod Durability
pub mod Acknowledged
