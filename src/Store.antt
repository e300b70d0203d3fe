-- ===== src/Store.antt =====
-- The database of the control plane: its rows (control-plane/app/models), the session with its
-- transactions, and the repositories (control-plane/app/repos).
pub mod Rows
pub mod Session
pub mod Rules
pub mod Ensures
pub mod Steady
pub mod Steps
pub mod Inserting
pub mod Creating
pub mod Recording
pub mod Tasks
pub mod Items
pub mod Counting
pub mod Events
pub mod Workspaces
