-- ===== src/Execution/Engine/Forward.antt =====
-- src/execution/engine.rs: the fills that the engine reports are not negative.
use strata_exec.Prelude.{
  if◌then◌else◌, Bool, true, false, arith, ℕ, List, [], ◌∷◌, All, All-append, inl, inr, Bool-cases,
}
use strata_exec.Float.{Float, ◌≤?◌, nought, fmin}
use strata_exec.Float.Laws.{IsRounding}
use strata_exec.Float.Order.{IsNonneg, nought_parts, not_le→≺, le-fmin}
use strata_exec.Strategies.Contract.{FillsForward}
use strata_exec.Events.{Order, SimEvent}
use strata_exec.Events.{
  order_filled, partial_fill, price_update, submit_order, cancel_order, time_tick,
}
use strata_exec.Events.Queue.{TimestampedEvent}
use strata_exec.Market.{MarketState}
use strata_exec.Execution.Impact.{SquareRootImpact, TransientImpactTracker}
use strata_exec.Execution.Engine.{ExecutionEngine, fill_order, fill_orders, try_fill, react, handle}

module _ {F : Type 0} ⦃f : Float F⦄ ⦃r : IsRounding F⦄ where
  abbrev pub AreForward : List (F × SimEvent F) → Type 0
  AreForward events = All (λ e. FillsForward e.1) events

  either_forward :
      (done : Bool) (i : ℕ) (q p t m : F)
      → IsNonneg q
      → FillsForward (if done then order_filled i q p t else partial_fill i q m p)
  either_forward true i q p t m h = h
  either_forward false i q p t m h = h

  module _ (model : SquareRootImpact F) (cap now : F) (market : MarketState F)
      (hc : IsNonneg cap) where
    fill_order-AreForward :
        (tr : TransientImpactTracker F) (o : Order F)
        → AreForward (fill_order model cap now market tr o).events
    unfolding fill_order
    fill_order-AreForward tr o = elim (Bool-cases (o.quantity ≤? nought)) [
      | inl e ↦ rw e tt
      | inr e ↦
          let more = not_le→≺ {F = F} o.quantity nought e in
          let low = le-fmin o.quantity cap nought (omega arith) (omega (arith, nought_parts r)) in
          rw e (
            either_forward _ o.id (fmin o.quantity cap) _ _ _ (omega (arith, nought_parts r, low)),
            tt,
          )
    ]

    fill_orders-AreForward :
        (tr : TransientImpactTracker F) (os : List (Order F))
        → AreForward (fill_orders model cap now market tr os).events
    unfolding fill_orders
    fill_orders-AreForward tr [] = tt
    fill_orders-AreForward tr (o ∷ os) =
        All-append _ (fill_order model cap now market tr o).events _ (fill_order-AreForward tr o)
          (fill_orders-AreForward (fill_order model cap now market tr o).tracker os)

  react-AreForward :
      (e : ExecutionEngine F) (now : F) (event : SimEvent F) (market : MarketState F)
      → IsNonneg e.max_fill_qty
      → AreForward (react e now event market).1
  unfolding react try_fill
  react-AreForward e now (submit_order o) market h = fill_orders-AreForward _ _ now market h _ _
  react-AreForward e now (cancel_order i) market h = tt
  react-AreForward e now (time_tick n) market h = fill_orders-AreForward _ _ now market h _ _
  react-AreForward e now (price_update p v) market h = fill_orders-AreForward _ _ now market h _ _
  react-AreForward e now _ market h = tt

  -- With a cap on fills that is not negative, no event that the execution engine returns reports a
  -- negative fill, whatever the event and the pending orders.
  pub handle-AreForward :
      (e : ExecutionEngine F) (tse : TimestampedEvent F) (market : MarketState F)
      → IsNonneg e.max_fill_qty
      → AreForward (handle e tse market).1
  unfolding handle
  handle-AreForward e tse market h = react-AreForward e tse.time tse.event market h
