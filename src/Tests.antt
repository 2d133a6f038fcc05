-- ===== src/Tests.antt =====
-- Concrete inputs for the theorems about crates/factory-policy, crates/factory-core and
-- crates/factory-types.
mod Samples
mod Paths
mod Files
mod Runs
mod Layers
mod Scheduling
mod Logs
mod Plans
