-- ===== src/Analytics.antt =====
-- src/analytics: the accounting of an execution.
pub mod Metrics
pub mod Breakdown
