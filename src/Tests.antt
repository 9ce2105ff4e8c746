-- ===== src/Tests.antt =====
-- Concrete runs of the code, and the theorems at concrete inputs.
pub mod Authorization
pub mod Data
pub mod Opening
pub mod Store
pub mod Traffic
pub mod State
pub mod Resolution
pub mod Runtime
pub mod Service
pub mod Legacy
pub mod Serving
pub mod LegacyTick
pub mod Canary
pub mod Rollback
