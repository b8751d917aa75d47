-- ===== src/Deployments/Outcome.antt =====
-- What the engine's operations return, and what they leave in the deployment.
pub mod Absence
pub mod Barrier
pub mod Create
pub mod Readiness
pub mod Request
pub mod Recovery
pub mod Replay
pub mod Rollback
pub mod Stages
pub mod Stop
