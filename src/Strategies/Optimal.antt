-- ===== src/Strategies/Optimal.antt =====
-- src/strategies/optimal.rs, second half: the event-driven wrapper that steps through the schedule.
pub mod Seller
pub mod Ending
use strata_exec.Prelude.{
  ℕ, ◌+◌, Bool, true, false, Option, none, some, List, [], ◌∷◌, get_elem?, if◌then◌else◌, Result,
  ok, err,
}
use strata_exec.Float.{Float, ◌⊖◌, ◌<?◌, ◌≤?◌, lit, nought, fmin}
use strata_exec.Events.{Order, market_sell, SimEvent, time_tick, order_filled, partial_fill}
use strata_exec.Market.{MarketState}
use strata_exec.Strategies.Ids.{OrderIds, fetch_add}
use strata_exec.Strategies.AlmgrenChriss
use strata_exec.Strategies.AlmgrenChriss.{AlmgrenChriss, ModelError, new_model}

pub record OptimalStrategy (F : Type 0) : Type 0 where
  pub total_notional : F
  pub remaining_notional : F
  pub eta : F
  pub lambda : F
  pub sigma_ref : F
  pub schedule : Option (List F)
  pub current_step : ℕ
  pub completed : Bool

module _ {F : Type 0} ⦃f : Float F⦄ where
  unfoldable pub new_optimal : F → F → F → F → OptimalStrategy F
  new_optimal total_notional eta lambda sigma_ref = record {
    total_notional = total_notional;
    remaining_notional = total_notional;
    eta = eta;
    lambda = lambda;
    sigma_ref = sigma_ref;
    schedule = none;
    current_step = 0;
    completed = false;
  }

  -- `if let Ok(ac) = … { self.schedule = Some(ac.schedule()) }`
  unfoldable pub schedule_of : Result (ModelError F) (AlmgrenChriss F) → Option (List F)
  schedule_of (ok m) = some (AlmgrenChriss.schedule m)
  schedule_of (err e) = none

  -- The schedule after `ensure_schedule`.
  unfoldable pub ensured : OptimalStrategy F → F → Option (List F) → Option (List F)
  unfolding schedule_of
  ensured s sigma (some x) = some x
  ensured s sigma none =
      let sigma' = if nought <? sigma then sigma else s.sigma_ref in
      schedule_of (new_model s.total_notional s.eta s.lambda sigma' none)

  unfoldable pub ensure_schedule : OptimalStrategy F → F → OptimalStrategy F
  unfolding ensured
  ensure_schedule s sigma = record s { schedule = ensured s sigma s.schedule }

  unfoldable pub record_fill : OptimalStrategy F → F → OptimalStrategy F
  record_fill s qty =
      let remaining = s.remaining_notional ⊖ qty in
      let over = remaining ≤? lit 1 8 in
      record s {
        remaining_notional = if over then nought else remaining;
        completed = if over then true else s.completed;
      }

  -- What follows the index into the schedule; `none` is a step past its end.
  unfoldable pub submit :
      OrderIds → OptimalStrategy F → Option F → OrderIds × OptimalStrategy F × List (Order F)
  unfolding fetch_add fmin
  submit ids s none = (ids, record s { remaining_notional = nought; completed = true }, [])
  submit ids s (some trade) =
      let chunk = fmin trade s.remaining_notional in
      let s' = record s { current_step = s.current_step + 1 } in
      if lit 1 10 <? chunk
      then (
        record ids { optimal = fetch_add ids.optimal },
        s',
        market_sell ids.optimal "Optimal" chunk ∷ [],
      )
      else (ids, s', [])

  unfoldable pub follow :
      OrderIds → OptimalStrategy F → Option (List F) → OrderIds × OptimalStrategy F × List (Order F)
  unfolding submit
  follow ids s none = (ids, s, [])
  follow ids s (some trades) = submit ids s (get_elem? trades s.current_step)

  unfoldable pub on_tick :
      OrderIds → OptimalStrategy F → MarketState F → OrderIds × OptimalStrategy F × List (Order F)
  unfolding follow ensure_schedule
  on_tick ids s market =
      let s' = ensure_schedule s market.volatility in
      if s.completed then (ids, s, []) else follow ids s' s'.schedule

  unfoldable pub on_event :
      OrderIds
      → OptimalStrategy F
      → SimEvent F
      → MarketState F
      → OrderIds × OptimalStrategy F × List (Order F)
  unfolding on_tick record_fill
  on_event ids s (time_tick _) market = on_tick ids s market
  on_event ids s (order_filled _ qty _ _) market = (ids, record_fill s qty, [])
  on_event ids s (partial_fill _ filled _ _) market = (ids, record_fill s filled, [])
  on_event ids s _ market = (ids, s, [])
