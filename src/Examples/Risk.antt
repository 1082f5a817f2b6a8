-- ===== src/Examples/Risk.antt =====
-- The risk manager at concrete inputs.
use strata_exec.Prelude.{List, [], ◌∷◌}
use strata_exec.Prelude.Int.{ℤ}
use strata_exec.Float.{lit}
use strata_exec.Float.Fixed.{fixed_float, fixed_rounding, fixed-IsExact}
use strata_exec.Examples.Data.{given}
use strata_exec.Engine.Risk.{RiskManager, new_risk}
use strata_exec.Engine.Risk.Budget.{IsWithin, new_risk-IsWithin, request_all, request_all-IsWithin}

-- A notional of 600 with a rate of 1 % and a tenth of the budget in reserve.
abbrev manager : RiskManager ℤ
manager = new_risk (lit 600 0) (lit 1 2) (lit 1 1)

manager-IsWithin : IsWithin manager
manager-IsWithin =
    new_risk-IsWithin (lit 600 0) (lit 1 2) (lit 1 1) (given 600 0) (given 1 2) (given 1 1)

-- One chunk that is allowed, one refused, and one that draws on the reserve.
abbrev requests : List (ℤ × ℤ)
requests = (lit 50 0, lit 5 1) ∷ (lit 50 0, lit 9 0) ∷ (lit 50 0, lit 5 1) ∷ []

request_all-IsWithin_example : IsWithin (request_all manager requests)
request_all-IsWithin_example =
    request_all-IsWithin fixed-IsExact requests manager
      ((given 50 0, given 5 1), ((given 50 0, given 9 0), ((given 50 0, given 5 1), tt)))
      manager-IsWithin
