-- ===== src/Wire/Requests.antt =====
-- The request types of protocol.rs and the functions that read them off the socket. Strings and
-- paths are their bytes; `f32` and `f64` fields are their bit patterns.
pub mod Types
pub mod Read
pub mod Write
pub mod Fields
pub mod RoundTrip
pub mod Jobs
pub mod Framing
pub mod Caps
