-- ===== src/Tests.antt =====
-- Runs of the definitions on concrete inputs, and the theorems applied to concrete inputs.
pub mod Fixtures
pub mod Texts
pub mod Store
pub mod Cycle
pub mod Quota
pub mod Models
pub mod Connections
pub mod Local
pub mod Tailing
pub mod Gauges
pub mod Routes
