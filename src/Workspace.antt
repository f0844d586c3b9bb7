-- ===== src/Workspace.antt =====
-- The projects of the workspace: frontend/src/types/workspace.ts, frontend/src/types/cluster.ts and the
-- functions of frontend/src/App.tsx that edit them.
pub mod Types
pub mod Edits
pub mod Migrate
pub mod Preservation
pub mod Links
pub mod Selection
pub mod Templates
mod Tests
