-- ===== src/Poster.antt =====
-- The poster generator: crates/poster-gen.
pub mod Layout
pub mod Sampling
pub mod MediaInfo
