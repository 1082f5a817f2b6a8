-- ===== src/Examples/Vpin.antt =====
-- The bucket loop at a concrete input: a trade that fills three buckets and a half.
use strata_exec.Prelude.{arith}
use strata_exec.Prelude.Int.{ℤ, ◌+ℤ◌, ◌-ℤ◌}
use strata_exec.Float.{lit}
use strata_exec.Float.Fixed.{fixed_float, fixed_rounding, fixed-IsExact, fixed_lit}
use strata_exec.Float.Exact.{total}
use strata_exec.Strategies.AlmgrenChriss.{equal_trades}
use strata_exec.Market.Vpin.{VpinCalculator, new_vpin, add_trade}
use strata_exec.Market.Vpin.Buckets.{new_vpin-IsCalculator}
use strata_exec.Market.Vpin.Rounds.{Returns, add_trade-Returns}

abbrev calculator : VpinCalculator ℤ
calculator = new_vpin (lit 1 0) 2

add_trade-Returns_example :
    Returns calculator.bucket_size (add_trade 5 calculator (lit 100 0) (lit 35 1) (lit 99 0))
unfolding ◌+ℤ◌ ◌-ℤ◌
add_trade-Returns_example =
    add_trade-Returns fixed-IsExact 4 calculator (lit 100 0) (lit 35 1) (lit 99 0)
      (unfold new_vpin fixed_lit in omega arith)
      (new_vpin-IsCalculator (lit 1 0) 2 (unfold fixed_lit in omega arith))
      (unfold new_vpin fixed_lit equal_trades total in omega arith)
