-- ===== src/Strategies/Ids.antt =====
-- The `static` order-id counters of the strategy files.
use strata_exec.Prelude.{ℕ, ◌+◌, ◌%◌, ◌^◌}

pub record OrderIds : Type 0 where
  pub heuristic : ℕ
  pub adaptive : ℕ
  pub optimal : ℕ
  pub twap : ℕ

abbrev pub initial_ids : OrderIds
initial_ids = record { heuristic = 1; adaptive = 100_000; optimal = 200_000; twap = 300_000 }

-- `fetch_add(1)` on an `AtomicU64`.
unfoldable pub fetch_add : ℕ → ℕ
fetch_add n = (n + 1) % 2 ^ 64
