-- ===== src/DiskCache.antt =====
-- The disk cache of decoded frames: crates/jfs-common/src/disk_cache.rs.
pub mod Text
pub mod State
pub mod Files
pub mod Save
pub mod Cleanup
pub mod Access
pub mod Accounting
pub mod Exact
pub mod Steps
pub mod Trim
pub mod Service
pub mod Restart
pub mod Start
