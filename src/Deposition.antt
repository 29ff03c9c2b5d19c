-- ===== src/Deposition.antt =====
-- perovskite_bo/recipe.py: the flat deposition recipe, and its construction from a process.
pub mod Data
pub mod Checks
pub mod Flatten
mod Stages
pub mod Accepts
pub mod Recorded
