-- ===== src/Config.antt =====
-- internal/config, as far as it is modelled.
pub mod History
