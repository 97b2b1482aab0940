-- ===== src/Streaming.antt =====
-- internal/streaming/engine.go: the download engine.
pub mod Engine
pub mod Session
pub mod Start
pub mod Wire
pub mod Protocol
mod Tests
