-- ===== src/Api.antt =====
-- The HTTP handlers of control-plane/app/api.
pub mod Tasks
pub mod Workspaces
pub mod Intake
