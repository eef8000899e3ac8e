-- ===== src/Tests.antt =====
-- Concrete runs of the model: numbers with three decimals, a small cluster, and the theorems applied
-- to them.
pub mod Fixed
pub mod Profile
pub mod Replicas
pub mod Predictor
pub mod Interpolation
pub mod Cluster
pub mod Metrics
pub mod Mounted
pub mod Create
pub mod Dry
pub mod Effect
pub mod Config
pub mod Profiler
pub mod Stored
pub mod Main
pub mod Reached
pub mod Outcome
pub mod Paced
pub mod Outage
