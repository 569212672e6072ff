-- ===== src/Operation.antt =====
-- internal/remotebridge/operation: the broker-signed permit, its verifier, the canonical command
-- and the gate that authorizes an operation.
pub mod Permit
pub mod Command
pub mod Verify
pub mod Gate
mod Examples
