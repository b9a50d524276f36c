-- ===== src/Server/Stream.antt =====
-- The handlers of server.rs that answer with a stream of events.
pub mod Batches
pub mod Window
pub mod Parts
pub mod Prefetch
pub mod Demux
pub mod Bridge
pub mod Range
pub mod Sessions
pub mod Fallback
