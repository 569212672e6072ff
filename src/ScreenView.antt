-- ===== src/ScreenView.antt =====
-- internal/remotebridge/screenview and the pixels of internal/remotebridge/dataplane: a screen view
-- from its permit to its frames, and the mask over them.
pub mod Dispatcher
pub mod MaskPolicy
mod Examples
