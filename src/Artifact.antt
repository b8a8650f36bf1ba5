-- ===== src/Artifact.antt =====
-- internal/artifact: where a checkpoint is stored, and how it is committed.
pub mod Uri
pub mod Manifest
pub mod Store
pub mod Publish
pub mod Cache
pub mod Prefetch
mod Tests
