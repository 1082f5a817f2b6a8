-- ===== src/Engine.antt =====
-- src/engine: the event loop of the simulator, the slippage risk manager and the block scheduler.
pub mod Risk
pub mod EventLoop
pub mod Scheduler
