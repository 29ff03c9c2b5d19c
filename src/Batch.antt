-- ===== src/Batch.antt =====
-- web/repository/batch.py: the life of a fabrication batch.
pub mod Data
pub mod Counts
pub mod Lifecycle
