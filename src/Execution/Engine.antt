-- ===== src/Execution/Engine.antt =====
-- src/execution/engine.rs: pending orders, filled first in, first out against the market snapshot.
pub mod Times
pub mod Forward
pub mod Fills
pub mod Pending
use Prim.Native.String.{String}
use strata_exec.Prelude.{
  ℕ, Bool, true, false, not, ◌||◌, List, [], ◌∷◌, ◌++◌, ◌==◌, if◌then◌else◌, retain, length,
}
use strata_exec.Float.{Float, ◌⊕◌, ◌⊖◌, ◌⊗◌, ◌≤?◌, lit, nought, one, fmin}
use strata_exec.Events.{
  Side, buy, sell, Order, SimEvent, submit_order, cancel_order, time_tick, price_update,
  order_filled, partial_fill,
}
use strata_exec.Events.Queue.{TimestampedEvent}
use strata_exec.Market.{MarketState}
use strata_exec.Execution.Impact.{
  SquareRootImpact, TransientImpactTracker, compute_impact, new_tracker, record_trade,
  current_impact,
}

pub record ExecutionEngine (F : Type 0) : Type 0 where
  pub pending_orders : List (Order F)
  pub impact_model : SquareRootImpact F
  pub transient_tracker : TransientImpactTracker F
  pub max_fill_qty : F

-- What one round of the loop leaves: the tracker, the order, whether its id goes to `filled_ids`,
-- and the events.
pub record Attempt (F : Type 0) : Type 0 where
  pub tracker : TransientImpactTracker F
  pub order : Order F
  pub done : Bool
  pub events : List (F × SimEvent F)

-- What the loop over the pending orders leaves.
pub record Round (F : Type 0) : Type 0 where
  pub tracker : TransientImpactTracker F
  pub orders : List (Order F)
  pub filled_ids : List ℕ
  pub events : List (F × SimEvent F)

unfoldable pub contains : List ℕ → ℕ → Bool
contains [] id = false
contains (i ∷ ids) id = i == id || contains ids id

module _ {F : Type 0} ⦃f : Float F⦄ where
  unfoldable pub new_engine : SquareRootImpact F → F → F → ExecutionEngine F
  unfolding new_tracker
  new_engine impact_model rho max_fill_qty = record {
    pending_orders = [];
    impact_model = impact_model;
    transient_tracker = new_tracker rho;
    max_fill_qty = max_fill_qty;
  }

  unfoldable pub exec_price : Side → F → F → F
  exec_price sell price impact = price ⊗ (one ⊖ impact)
  exec_price buy price impact = price ⊗ (one ⊕ impact)

  module _ (model : SquareRootImpact F) (max_fill_qty now : F) (market : MarketState F) where
    -- The body of the loop of `try_fill`.
    unfoldable pub fill_order : TransientImpactTracker F → Order F → Attempt F
    unfolding exec_price fmin
    fill_order tracker order =
        if order.quantity ≤? nought
        then record { tracker = tracker; order = order; done = true; events = [] }
        else let fill_qty = fmin order.quantity max_fill_qty in
          let base_impact = compute_impact model fill_qty market.volatility in
          let total_impact_fraction = base_impact ⊕ current_impact tracker now in
          let price = exec_price order.side market.price total_impact_fraction in
          let tracker' = record_trade tracker now base_impact in
          let remaining = order.quantity ⊖ fill_qty in
          let done = remaining ≤? lit 1 10 in
          record {
            tracker = tracker';
            order = record order { quantity = remaining };
            done = done;
            events =
                (
                  now ⊕ lit 1 9,
                  if done
                      then order_filled order.id fill_qty price total_impact_fraction
                      else partial_fill order.id fill_qty remaining price,
                )
                ∷ [];
          }

    unfoldable pub fill_orders : TransientImpactTracker F → List (Order F) → Round F
    unfolding fill_order
    fill_orders tracker [] = record { tracker = tracker; orders = []; filled_ids = []; events = [] }
    fill_orders tracker (order ∷ orders) =
        let a = fill_order tracker order in
        let rest = fill_orders a.tracker orders in
        record {
          tracker = rest.tracker;
          orders = a.order ∷ rest.orders;
          filled_ids = if a.done then order.id ∷ rest.filled_ids else rest.filled_ids;
          events = a.events ++ rest.events;
        }

  unfoldable pub try_fill :
      ExecutionEngine F → F → MarketState F → ExecutionEngine F × List (F × SimEvent F)
  unfolding fill_orders retain contains
  try_fill e now market =
      let r =
        fill_orders e.impact_model e.max_fill_qty now market e.transient_tracker e.pending_orders in
      (
        record e {
          pending_orders = retain (λ o. not (contains r.filled_ids o.id)) r.orders;
          transient_tracker = r.tracker;
        },
        r.events,
      )

  -- `ExecutionEngine::handle`, on the event's payload.
  unfoldable pub react :
      ExecutionEngine F → F → SimEvent F → MarketState F → ExecutionEngine F × List (F × SimEvent F)
  unfolding try_fill
  react e now (submit_order order) market =
      try_fill (record e { pending_orders = e.pending_orders ++ order ∷ [] }) now market
  react e now (cancel_order order_id) market =
      (record e { pending_orders = retain (λ o. not (o.id == order_id)) e.pending_orders }, [])
  react e now (time_tick _) market = try_fill e now market
  react e now (price_update _ _) market = try_fill e now market
  react e now _ market = (e, [])

  unfoldable pub handle :
      ExecutionEngine F
      → TimestampedEvent F
      → MarketState F
      → ExecutionEngine F × List (F × SimEvent F)
  unfolding react
  handle e tse market = react e tse.time tse.event market

  unfoldable pub pending_count : ExecutionEngine F → ℕ
  pending_count e = length e.pending_orders

  unfoldable pub transient_impact : ExecutionEngine F → F → F
  transient_impact e now = current_impact e.transient_tracker now
