-- ===== src/Examples/Execution.antt =====
-- The execution engine at concrete inputs.
use strata_exec.Prelude.{◌≡◌, [], ◌∷◌, retain, arith}
use strata_exec.Prelude.Int.{ℤ, pos, ◌+ℤ◌}
use strata_exec.Float.{lit, fmin, ◌⊖◌, ◌<?◌}
use strata_exec.Float.Fixed.{fixed_float, fixed_rounding, fixed-IsExact, fixed_lit}
use strata_exec.Float.Exact.{Balance}
use strata_exec.Float.Order.{◌≼◌, IsNonneg}
use strata_exec.Events.{Order, market_sell, submit_order}
use strata_exec.Events.Queue.{TimestampedEvent}
use strata_exec.Market.{MarketState}
use strata_exec.Execution.Impact.{SquareRootImpact, TransientImpactTracker, new_tracker}
use strata_exec.Execution.Engine.{ExecutionEngine, fill_order, fill_orders, try_fill, handle}
use strata_exec.Execution.Engine.Forward.{AreForward, handle-AreForward}
use strata_exec.Execution.Engine.Fills.{
  amounts, outstanding, fill_order_bounds, fill_orders-conserves,
}
use strata_exec.Execution.Engine.Pending.{ids, AreDistinct, try_fill-pending}
use strata_exec.Examples.Data.{given}

abbrev market : MarketState ℤ
market = record {
  price = lit 100 0;
  volatility = lit 5 1;
  liquidity = record { reserve_in = lit 100 0; reserve_out = lit 200 0 };
  step = 0;
}

abbrev impact : SquareRootImpact ℤ
impact = record { daily_volume = lit 1000 0; impact_coefficient = lit 1 1 }

abbrev tracker : TransientImpactTracker ℤ
tracker = new_tracker (lit 1 0)

abbrev small : Order ℤ
small = market_sell 1 "TWAP" (lit 3 0)

-- More than the engine fills at a time.
abbrev large : Order ℤ
large = market_sell 2 "TWAP" (lit 8 0)

abbrev engine : ExecutionEngine ℤ
engine = record {
  pending_orders = small ∷ large ∷ [];
  impact_model = impact;
  transient_tracker = tracker;
  max_fill_qty = lit 5 0;
}

distinct : AreDistinct (ids engine.pending_orders)
distinct = (((λ p. absurd (omega arith)), tt), (tt, tt))

fill_orders-conserves_example :
    let round = fill_orders impact (lit 5 0) (lit 1 0) market tracker (small ∷ large ∷ []) in
    Balance
      (amounts round.events)
      (outstanding round.orders)
      (outstanding (small ∷ large ∷ []))
      (pos 0)
fill_orders-conserves_example =
    fill_orders-conserves impact (lit 5 0) (lit 1 0) market fixed-IsExact tracker
      (small ∷ large ∷ [])

fill_order_bounds_example :
    let a = fill_order impact (lit 5 0) (lit 1 0) market tracker large in
    let fill_qty = fmin large.quantity (lit 5 0) in
    (amounts a.events ≡ fill_qty +ℤ pos 0)
    × IsNonneg fill_qty
    × (fill_qty ≼ large.quantity)
    × (fill_qty ≼ lit 5 0)
    × IsNonneg a.order.quantity
    × (a.order.quantity ≡ large.quantity ⊖ fill_qty)
fill_order_bounds_example =
    fill_order_bounds impact (lit 5 0) (lit 1 0) market tracker large
      (unfold fixed_lit in omega arith) (given 5 0)

try_fill-pending_example :
    let round = fill_orders impact (lit 5 0) (lit 1 0) market tracker (small ∷ large ∷ []) in
    (try_fill engine (lit 1 0) market).0.pending_orders
    ≡ retain (λ o. lit 1 10 <? o.quantity) round.orders
try_fill-pending_example = try_fill-pending engine (lit 1 0) market distinct

abbrev submission : TimestampedEvent ℤ
submission = record {
  time = lit 2 0;
  seq = 0;
  event = submit_order (market_sell 3 "TWAP" (lit 1 0));
}

handle-AreForward_example : AreForward (handle engine submission market).1
handle-AreForward_example = handle-AreForward engine submission market (given 5 0)
