-- ===== src/PortForward.antt =====
-- internal/remotebridge/portforward/target.go: which addresses the agent may be made to connect to.
pub mod Address
pub mod Target
mod Examples
