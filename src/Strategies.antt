-- ===== src/Strategies.antt =====
-- src/strategies: the strategies, and the process-wide order-id counters of their files (a `static`
-- `AtomicU64` each, whose `fetch_add` wraps at 2^64).
pub mod Ids
pub mod Contract
pub mod Twap
pub mod Heuristic
pub mod Adaptive
pub mod AlmgrenChriss
pub mod Optimal
pub mod RegimeAc
