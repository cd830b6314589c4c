-- ===== src/Examples.antt =====
-- Small tasks, and the theorems at them.
pub mod Samples
pub mod Items
pub mod Verdicts
pub mod Executions
pub mod Providers
pub mod Decisions
pub mod Recoveries
pub mod Encodings
pub mod Sinks
pub mod Plans
pub mod Actions
pub mod Caching
