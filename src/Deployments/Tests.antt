-- ===== src/Deployments/Tests.antt =====
-- The engine on a group of two ranks.
mod Engine
pub mod World
