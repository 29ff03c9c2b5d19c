-- ===== src/Tests.antt =====
-- Runs of the models on sample inputs, and the theorems applied to them.
pub mod Samples
pub mod Stacks
pub mod Processes
pub mod Batches
pub mod Plans
pub mod WorkSamples
pub mod Works
pub mod Logins
