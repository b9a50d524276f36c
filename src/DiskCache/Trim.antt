-- ===== src/DiskCache/Trim.antt =====
-- What the cleanup evicts, and what it leaves.
pub mod Stuck
pub mod Age
pub mod Target
