-- ===== src/Strategies/Twap.antt =====
-- src/strategies/twap.rs: equal slices over the horizon.
pub mod Seller
use strata_exec.Prelude.{ℕ, Bool, true, false, not, ◌&&◌, List, [], ◌∷◌, ltb, if◌then◌else◌}
use strata_exec.Float.{Float, ◌⊖◌, ◌⊘◌, ◌<?◌, ◌≤?◌, lit, nought, fmin}
use strata_exec.Events.{Order, market_sell, SimEvent, time_tick, order_filled, partial_fill}
use strata_exec.Market.{MarketState}
use strata_exec.Strategies.Ids.{OrderIds, fetch_add}

pub record TwapStrategy (F : Type 0) : Type 0 where
  pub qty_per_step : F
  pub remaining_notional : F
  pub completed : Bool

module _ {F : Type 0} ⦃f : Float F⦄ where
  unfoldable pub new_twap : F → ℕ → TwapStrategy F
  new_twap total_notional horizon = record {
    qty_per_step = if ltb 0 horizon then total_notional ⊘ f.of_usize horizon else total_notional;
    remaining_notional = total_notional;
    completed = false;
  }

  -- The body of the two fill branches.
  unfoldable pub take_fill : TwapStrategy F → F → TwapStrategy F
  take_fill s qty =
      let remaining = s.remaining_notional ⊖ qty in
      let over = remaining ≤? lit 1 8 in
      record s {
        remaining_notional = if over then nought else remaining;
        completed = if over then true else s.completed;
      }

  unfoldable pub on_tick : OrderIds → TwapStrategy F → OrderIds × TwapStrategy F × List (Order F)
  unfolding fetch_add fmin
  on_tick ids s =
      let chunk = fmin s.qty_per_step s.remaining_notional in
      if not s.completed && lit 1 10 <? chunk
      then (record ids { twap = fetch_add ids.twap }, s, market_sell ids.twap "TWAP" chunk ∷ [])
      else (ids, s, [])

  unfoldable pub on_event :
      OrderIds
      → TwapStrategy F
      → SimEvent F
      → MarketState F
      → OrderIds × TwapStrategy F × List (Order F)
  unfolding on_tick take_fill
  on_event ids s (time_tick _) market = on_tick ids s
  on_event ids s (order_filled _ qty _ _) market = (ids, take_fill s qty, [])
  on_event ids s (partial_fill _ filled _ _) market = (ids, take_fill s filled, [])
  on_event ids s _ market = (ids, s, [])
