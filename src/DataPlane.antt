-- ===== src/DataPlane.antt =====
-- internal/remotebridge/dataplane: the screen-view session and its frames.
pub mod FrameCodec
pub mod Exfil
pub mod ViewSession
pub mod FrameIpc
mod Examples
