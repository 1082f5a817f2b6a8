-- ===== src/Rl.antt =====
-- src/bin/rl_env: the environment in which execution policies are trained and evaluated.
pub mod Config
pub mod Cache
pub mod Env
pub mod Batch
