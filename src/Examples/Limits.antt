-- ===== src/Examples/Limits.antt =====
-- The adaptive mode under its risk limits, at concrete inputs.
use strata_exec.Prelude.{none, List, [], ◌∷◌, refl, arith}
use strata_exec.Prelude.Int.{ℤ}
use strata_exec.Float.{lit}
use strata_exec.Float.Fixed.{fixed_float, fixed_rounding, fixed-IsExact, fixed_lit}
use strata_exec.Market.{LiquiditySnapshot}
use strata_exec.Strategies.Adaptive.{new_adaptive}
use strata_exec.Engine.Risk.{RiskManager, new_risk}
use strata_exec.Engine.Risk.Budget.{IsWithin, new_risk-IsWithin}
use strata_exec.Engine.Scheduler.{Scheduler, ExecutionMode, new_scheduler}
use strata_exec.Engine.Scheduler.Progress.{IsTidy, run_blocks, new_scheduler-IsTidy}
use strata_exec.Engine.Scheduler.Limits.{IsLimited, run_blocks-IsLimited}
use strata_exec.Examples.Data.{given}

abbrev pool : LiquiditySnapshot ℤ
pool = record { reserve_in = lit 100 0; reserve_out = lit 200 0 }

abbrev manager : RiskManager ℤ
manager = new_risk (lit 10 0) (lit 1 2) (lit 1 1)

abbrev adaptive_sale : Scheduler ℤ
adaptive_sale =
    new_scheduler manager (lit 10 0) (lit 4 0) (lit 5 1) (lit 100 0) ExecutionMode.adaptive_optimal
      (lit 1 0) (lit 1 0) none

adaptive_sale-IsTidy : IsTidy adaptive_sale
adaptive_sale-IsTidy =
    unfold run_blocks in
    new_scheduler-IsTidy manager (lit 10 0) (lit 4 0) (lit 5 1) (lit 100 0)
      ExecutionMode.adaptive_optimal (lit 1 0) (lit 1 0) none [] (unfold fixed_lit in omega arith)

adaptive_sale-IsLimited : IsLimited adaptive_sale
unfolding new_scheduler new_adaptive
adaptive_sale-IsLimited = record {
  mode = refl;
  within = new_risk-IsWithin (lit 10 0) (lit 1 2) (lit 1 1) (given 10 0) (given 1 2) (given 1 1);
  alpha = given 1 2;
  beta = given 5 3;
}

abbrev two_blocks : List (ℤ × LiquiditySnapshot ℤ)
two_blocks = (lit 4 1, pool) ∷ (lit 5 1, pool) ∷ []

run_blocks-IsLimited_example : IsWithin (run_blocks adaptive_sale two_blocks).risk
run_blocks-IsLimited_example =
    run_blocks-IsLimited fixed-IsExact two_blocks adaptive_sale (given 4 1, (given 5 1, tt))
      adaptive_sale-IsTidy adaptive_sale-IsLimited
