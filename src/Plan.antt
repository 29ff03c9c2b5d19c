-- ===== src/Plan.antt =====
-- Experiment plans: src/web/repository/condition.py.
pub mod Data
pub mod Conditions
pub mod Status
pub mod Exceptions
