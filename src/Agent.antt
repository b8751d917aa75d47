-- ===== src/Agent.antt =====
-- internal/agent: the daemon on a device.
pub mod Barrier
pub mod Containers
pub mod Launch
pub mod LogTail
