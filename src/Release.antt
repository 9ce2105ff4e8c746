-- ===== src/Release.antt =====
-- The release control plane.
pub mod Types
pub mod Equality
pub mod Host
pub mod Pairs
pub mod Events
pub mod Authorization
pub mod State
pub mod Authorize
pub mod Store
pub mod Stages
pub mod Controller
pub mod Tick
pub mod Processor
pub mod Inbox
pub mod Operator
pub mod Moves
pub mod Discipline
