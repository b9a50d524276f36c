-- ===== src/Forge.antt =====
-- The image work of frame-forge: upscaling in tiles, and the crop of empty borders.
pub mod Tiles
pub mod Border
