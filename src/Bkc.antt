-- ===== src/Bkc.antt =====
-- internal/bkc: the catalog of best known configurations.
pub mod Types
pub mod Catalog
pub mod MultiDevice
pub mod Qwen
