-- ===== src/Decoder.antt =====
-- What jfs-common's decoder.rs does around ffmpeg: the frame index of a file, and the matching of
-- decoded frames to the frames that were asked for.
pub mod Index
