-- ===== src/Ctrl.antt =====
-- The controller's part of a transfer, src/ctrl.rs.
pub mod Plans
pub mod Push
pub mod Pull
pub mod Examples
