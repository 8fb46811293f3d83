-- ===== src/Bt.antt =====
-- internal/download/bt: what of the torrent worker does not need its engine.
pub mod Trackers
pub mod Files
pub mod Runtime
pub mod Storage
pub mod Checkpoint
pub mod Seeding
