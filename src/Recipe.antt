-- ===== src/Recipe.antt =====
-- perovskite_bo/device_recipe.py: validated device-stack recipes.
pub mod Data
pub mod Errors
pub mod Layer
pub mod Stack
pub mod Process
pub mod Groups
pub mod Complete
