-- ===== src/Examples/Strategies.antt =====
-- Schedules, the regime-conditional strategy and the scheduler at concrete inputs.
use strata_exec.Prelude.{inl, ◌≡◌, refl, true, false, none, some, List, [], ◌∷◌, ok, length, arith}
use strata_exec.Prelude.Int.{ℤ, pos, floor_div, ◌*ℤ◌, ◌+ℤ◌}
use strata_exec.Float.{lit}
use strata_exec.Float.Fixed.{fixed_float, fixed_rounding, fixed-IsExact, fixed_lit}
use strata_exec.Float.Exact.{Balance, total}
use strata_exec.Market.{LiquiditySnapshot}
use strata_exec.Engine.Risk.{RiskManager, new_risk}
use strata_exec.Engine.Scheduler.{Scheduler, ExecutionMode, new_scheduler}
use strata_exec.Engine.Scheduler.Twap.{twap-finishes}
use strata_exec.Engine.Scheduler.Bypass.{run_blocks-Keeps}
use strata_exec.Engine.Scheduler.Progress.{IsTidy, run_blocks, new_scheduler-IsTidy}
use strata_exec.Strategies.AlmgrenChriss.{AlmgrenChriss, equal_trades, new_model, schedule}
use strata_exec.Strategies.AlmgrenChriss.Inventory.{schedule-total}
use strata_exec.Strategies.AlmgrenChriss.Model.{Plans, new_model-Plans}
use strata_exec.Strategies.RegimeAc.{RegimeAcStrategy, new_regime_ac, is_complete, on_block}
use strata_exec.Strategies.RegimeAc.Horizon.{IsStep, feed, on_block-IsStep, feed-finishes}
use strata_exec.Examples.Data.{given}

-- A risk-averse sale of 10 over 4 steps.
abbrev model : AlmgrenChriss ℤ
model = record {
  total_inventory = lit 10 0;
  eta = lit 1 0;
  gamma = lit 1 1;
  lambda = lit 1 0;
  sigma = lit 5 1;
  horizon = 4;
}

new_model-accepts : new_model (lit 10 0) (lit 1 0) (lit 1 0) (lit 5 1) (some 4) ≡ ok model
unfolding new_model fixed_lit floor_div ◌*ℤ◌
new_model-accepts = refl

-- Without a given horizon.
new_model-Plans_example :
    Plans fixed-IsExact
      (lit 10 0)
      (lit 1 0)
      (lit 1 0)
      (lit 5 1)
      none
      (new_model (lit 10 0) (lit 1 0) (lit 1 0) (lit 5 1) none)
new_model-Plans_example =
    new_model-Plans fixed-IsExact (lit 10 0) (lit 1 0) (lit 1 0) (lit 5 1) none

schedule-total_example :
    (length (schedule model) ≡ 4) × Balance (total (schedule model)) (pos 0) (lit 10 0) (pos 0)
schedule-total_example = schedule-total fixed-IsExact model (omega arith)

-- A sale of 10 over 3 steps, in its warm-up.
abbrev sale : RegimeAcStrategy ℤ
sale = new_regime_ac (lit 10 0) 3 (lit 1 0) (lit 5 1) (lit 1 1)

sale-going : is_complete sale ≡ false
unfolding is_complete new_regime_ac fixed_lit
sale-going = refl

on_block-IsStep_example :
    IsStep sale (on_block sale (lit 4 1) (lit 1 1)).0 (on_block sale (lit 4 1) (lit 1 1)).1
on_block-IsStep_example =
    on_block-IsStep sale (lit 4 1) (lit 1 1) (unfold new_regime_ac in given 10 0) sale-going

abbrev three_blocks : List (ℤ × ℤ)
three_blocks = (lit 4 1, lit 1 1) ∷ (lit 6 1, lit 2 1) ∷ (lit 5 1, lit 1 1) ∷ []

feed-finishes_example : is_complete (feed sale three_blocks) ≡ true
feed-finishes_example =
    feed-finishes three_blocks sale (unfold new_regime_ac in given 10 0) (omega arith)
      (unfold new_regime_ac in omega arith)

abbrev pool : LiquiditySnapshot ℤ
pool = record { reserve_in = lit 100 0; reserve_out = lit 200 0 }

abbrev manager : RiskManager ℤ
manager = new_risk (lit 10 0) (lit 1 2) (lit 1 1)

abbrev four_a_block : Scheduler ℤ
four_a_block =
    new_scheduler manager (lit 10 0) (lit 4 0) (lit 5 1) (lit 100 0) ExecutionMode.twap (lit 1 0)
      (lit 1 0) none

abbrev two_blocks : List (ℤ × LiquiditySnapshot ℤ)
two_blocks = (lit 4 1, pool) ∷ (lit 5 1, pool) ∷ []

new_scheduler-IsTidy_example : IsTidy (run_blocks four_a_block two_blocks)
new_scheduler-IsTidy_example =
    new_scheduler-IsTidy manager (lit 10 0) (lit 4 0) (lit 5 1) (lit 100 0) ExecutionMode.twap
      (lit 1 0) (lit 1 0) none two_blocks (unfold fixed_lit in omega arith)

run_blocks-Keeps_example :
    ((run_blocks four_a_block two_blocks).risk ≡ four_a_block.risk)
    × ((run_blocks four_a_block two_blocks).mode ≡ four_a_block.mode)
run_blocks-Keeps_example =
    run_blocks-Keeps two_blocks four_a_block (inl (unfold new_scheduler in refl))

-- Slices of 4 for a sale of 10 over three blocks.
four_a_block-IsTidy : IsTidy four_a_block
four_a_block-IsTidy =
    unfold run_blocks in
    new_scheduler-IsTidy manager (lit 10 0) (lit 4 0) (lit 5 1) (lit 100 0) ExecutionMode.twap
      (lit 1 0) (lit 1 0) none [] (unfold fixed_lit in omega arith)

abbrev three_pools : List (ℤ × LiquiditySnapshot ℤ)
three_pools = (lit 4 1, pool) ∷ (lit 5 1, pool) ∷ (lit 5 1, pool) ∷ []

twap-finishes_example : (run_blocks four_a_block three_pools).completed ≡ true
unfolding ◌+ℤ◌
twap-finishes_example =
    twap-finishes fixed-IsExact three_pools four_a_block four_a_block-IsTidy
      (unfold new_scheduler in refl) (unfold new_scheduler fixed_lit in omega arith)
      (unfold new_scheduler fixed_lit equal_trades total in omega arith)
