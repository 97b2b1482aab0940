-- ===== src/Node.antt =====
-- cmd/node/main.go: the wiring of a node.
pub mod Commas
pub mod Flags
pub mod Joining
pub mod Loop
pub mod Preload
mod Tests
