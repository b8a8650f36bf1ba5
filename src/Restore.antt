-- ===== src/Restore.antt =====
-- internal/restore: what a restored container is made of.
pub mod Spec
pub mod Mounts
pub mod Extra
mod Tests
