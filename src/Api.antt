-- ===== src/Api.antt =====
-- internal/api: the REST API of a node, with the handlers of handlers.go as steps of a server.
pub mod Models
pub mod Server
pub mod Names
pub mod Tracks
pub mod Library
pub mod Playback
pub mod Playlist
pub mod Peers
pub mod Middleware
pub mod Requests
pub mod Routes
pub mod Examples
mod Tests
