-- ===== src/Controller.antt =====
-- internal/controller: the manager's reconcilers.
pub mod Env
pub mod Snapshot
pub mod Steps
pub mod Placeholder
pub mod Builder
pub mod Build
pub mod Restore
mod Tests
