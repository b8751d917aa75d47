-- ===== src/Deployments/Engine.antt =====
-- internal/deployments/engine.go. `e.mu` makes each entry point atomic, so it is a function from
-- the state before to the state after; a deployment that is passed by pointer is returned.
pub mod Journal
pub mod Rollback
pub mod Stop
pub mod Readiness
pub mod Service
pub mod Start
pub mod Recovery
pub mod Request
pub mod Candidate
pub mod Create
