-- ===== src/Recipes.antt =====
-- internal/recipes: candidate recipes that agents propose, and the handlers of the daemon that
-- change them.
pub mod Types
pub mod Validate
pub mod Store
pub mod Handlers
pub mod Trial
