-- ===== src/Teams.antt =====
-- Workspaces and what belongs to them: src/workspace, src/shared-task, src/private-task, src/invite, src/shared-link.
pub mod Workspaces
pub mod Tasks
pub mod Invites
pub mod Links
