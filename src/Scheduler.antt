-- ===== src/Scheduler.antt =====
-- internal/scheduler/scheduler.go: which chunks to fetch from which peers. The mutex makes each
-- method one atomic step. Peers are an abstract type with decidable equality.
pub mod Congestion
pub mod Requests
mod Tests
