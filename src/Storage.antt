-- ===== src/Storage.antt =====
-- internal/storage/storage.go: MP3 files cut into frames and chunks, and the tracks in memory.
pub mod Mp3
pub mod Frames
pub mod Chunks
pub mod Tracks
mod Tests
