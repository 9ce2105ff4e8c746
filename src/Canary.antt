-- ===== src/Canary.antt =====
-- The Docker demonstration of a canary: canary/evaluator.py.
pub mod Evaluator
pub mod Run
pub mod Progress
pub mod Acknowledged
