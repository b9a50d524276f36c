-- ===== src/Wire.antt =====
-- The socket protocol of the frame-forge daemon: crates/frame-forge/src/protocol.rs.
pub mod Bytes
pub mod Utf8
pub mod Reader
pub mod Writer
pub mod Requests
pub mod Responses
