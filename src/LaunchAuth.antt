-- ===== src/LaunchAuth.antt =====
-- internal/launchauth: signed one-time authorizations of a launch.
pub mod Clock
pub mod Types
pub mod Authorization
pub mod Replay
pub mod Sample
