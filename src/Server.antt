-- ===== src/Server.antt =====
-- The frame-forge daemon: crates/frame-forge/src/server.rs, and what it takes from jfs-common.
pub mod Frames
pub mod Hardware
pub mod Lru
pub mod FrameIndex
pub mod Prefetch
pub mod Daemon
pub mod Repeat
pub mod Bodies
pub mod Connection
pub mod Stream
pub mod PrefetchRange
