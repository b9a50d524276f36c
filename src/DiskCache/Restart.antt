-- ===== src/DiskCache/Restart.antt =====
-- The index is saved to index.txt and read back when the cache starts again.
pub mod Words
pub mod Index
