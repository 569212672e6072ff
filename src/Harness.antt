-- ===== src/Harness.antt =====
-- internal/remotebridge/harness: the connection to the broker, what it accepts and what it sends.
pub mod Messages
pub mod SeqGuard
pub mod Sender
pub mod Config
pub mod Timing
pub mod Kill
pub mod Decode
pub mod Inbound
pub mod Stream
pub mod Codes
pub mod ViewCodes
pub mod Dispatch
mod Examples
mod Interleavings
