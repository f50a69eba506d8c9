-- ===== src/CommitLog.antt =====
-- commitlog/: the log of a partition on disk, cut into segments, each with an index.
pub mod Int64
pub mod Index
pub mod Segment
pub mod DeleteCleaner
pub mod Log
pub mod Find
