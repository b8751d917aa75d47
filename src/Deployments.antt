-- ===== src/Deployments.antt =====
-- internal/deployments: grouped deployments over several devices.
pub mod Errors
pub mod Types
pub mod Env
pub mod Store
pub mod Tests
pub mod Members
pub mod Logs
pub mod Engine
pub mod Outcome
pub mod Safety
