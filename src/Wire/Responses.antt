-- ===== src/Wire/Responses.antt =====
-- The responses that the daemon writes (the `write_*` functions of protocol.rs), and how the client
-- reads them (FrameExportService.cs).
pub mod Send
pub mod Receive
pub mod RoundTrip
