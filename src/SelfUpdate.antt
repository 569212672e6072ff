-- ===== src/SelfUpdate.antt =====
-- internal/selfupdate: the version, address, tier and signer policies of an update, and their order.
pub mod Version
pub mod Url
pub mod Download
pub mod Signer
pub mod Preflight
mod Examples
