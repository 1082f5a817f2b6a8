-- ===== src/Execution.antt =====
-- src/execution: the impact models and the execution engine.
pub mod Impact
pub mod Engine
