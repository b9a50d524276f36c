-- ===== src/Seek.antt =====
-- The seek-preview daemon: crates/seek-preview/src/protocol.rs and server.rs.
pub mod Protocol
pub mod Session
pub mod Active
pub mod Steps
pub mod Alone
