-- ===== src/Agent.antt =====
-- internal/agent: the controllers that run on each node, as programs (Os).
pub mod Capture
pub mod Config
pub mod Quiesce
pub mod Upload
pub mod Checkpoint
pub mod Moves
pub mod Server
pub mod UploadMoves
pub mod CheckpointMoves
pub mod System
mod Tests
