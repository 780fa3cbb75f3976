-- ===== src/Replay.antt =====
-- pkg/replay.
pub mod ObjectWrite
pub mod Transfer
pub mod Stream
pub mod Extents
pub mod Dispatch
pub mod Merge
pub mod Caps
pub mod Executor
