-- ===== src/Examples/Data.antt =====
-- Values that the examples share.
use strata_exec.Prelude.{ℕ}
use strata_exec.Prelude.Int.{ℤ}
use strata_exec.Float.{lit}
use strata_exec.Float.Fixed.{fixed_float, fixed_rounding}
use strata_exec.Float.Order.{IsNonneg, lit_nonneg}

pub given : (m e : ℕ) → IsNonneg {F = ℤ} (lit m e)
given m e = lit_nonneg fixed_rounding m e
