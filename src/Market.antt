-- ===== src/Market.antt =====
-- src/market/state.rs and src/market/liquidity.rs: the market snapshot that orders are filled against.
pub mod OrderBook
pub mod Regime
pub mod Vpin
pub mod Volatility
pub mod Adversarial
pub mod Simulators
pub mod LobGenerator
pub mod LobReplay
pub mod AggTrades
pub mod CounterfactualLob
use strata_exec.Prelude.{ℕ, ◌||◌, Option, none, some, List, [], if◌then◌else◌}
use strata_exec.Float.{Float, ◌⊗◌, ◌⊘◌, ◌≤?◌, nought}
use strata_exec.Events.{SimEvent, price_update, market_trade, time_tick}
use strata_exec.Events.Queue.{TimestampedEvent}

pub record LiquiditySnapshot (F : Type 0) : Type 0 where
  pub reserve_in : F
  pub reserve_out : F

pub record MarketState (F : Type 0) : Type 0 where
  pub price : F
  pub volatility : F
  pub liquidity : LiquiditySnapshot F
  pub step : ℕ

module _ {F : Type 0} ⦃f : Float F⦄ where
  unfoldable pub mid_price : LiquiditySnapshot F → Option F
  mid_price l =
      if l.reserve_in ≤? nought || l.reserve_out ≤? nought
      then none
      else some (l.reserve_out ⊘ l.reserve_in)

  unfoldable pub depth_metric : LiquiditySnapshot F → F
  depth_metric l =
      if l.reserve_in ≤? nought || l.reserve_out ≤? nought
      then nought
      else f.sqrt (l.reserve_in ⊗ l.reserve_out)

-- `MarketState::handle`, on the event's payload.
unfoldable pub update : {F : Type 0} → MarketState F → SimEvent F → MarketState F
update m (price_update price volatility) = record m { price = price; volatility = volatility }
update m (market_trade _ price) = record m { price = price }
update m (time_tick step) = record m { step = step }
update m _ = m

unfoldable pub handle :
    {F : Type 0} → MarketState F → TimestampedEvent F → MarketState F × List (F × SimEvent F)
unfolding update
handle m tse = (update m tse.event, [])
