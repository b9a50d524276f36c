-- ===== src/DiskCache/Text.antt =====
-- The texts of the disk cache: numbers, positions and frame file names. A text is the list of its
-- characters' code points.
pub mod Strings
pub mod Decimal
pub mod Numerals
pub mod Position
pub mod Names
