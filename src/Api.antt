-- ===== src/Api.antt =====
-- api/v1alpha1: the resources, and what the controllers read of the core Kubernetes objects.
pub mod Common
pub mod Snapshot
pub mod Compat
pub mod Restore
pub mod Build
mod Tests
