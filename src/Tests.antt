-- ===== src/Tests.antt =====
-- The theorems at concrete inputs.
mod WireRequests
mod Cache
mod Daemons
mod Streams
mod Pictures
mod Seeking
