-- ===== src/Execution/Engine/Times.antt =====
-- src/execution/engine.rs: when the follow-on events are scheduled.
use strata_exec.Prelude.{ℕ, List, [], ◌∷◌, All, All-append, inl, inr, Bool-cases}
use strata_exec.Float.{Float, ◌⊕◌, ◌≤?◌, lit, nought}
use strata_exec.Float.Laws.{IsRounding}
use strata_exec.Float.Order.{◌≼◌, le-add_right, lit_nonneg}
use strata_exec.Events.{Order, SimEvent}
use strata_exec.Events.{price_update, submit_order, cancel_order, time_tick}
use strata_exec.Events.Queue.{TimestampedEvent}
use strata_exec.Market.{MarketState}
use strata_exec.Execution.Impact.{SquareRootImpact, TransientImpactTracker}
use strata_exec.Execution.Engine.{ExecutionEngine, fill_order, fill_orders, react, handle}

module _ {F : Type 0} ⦃f : Float F⦄ ⦃r : IsRounding F⦄ where
  -- Every event of the list is scheduled at `now` or later.
  abbrev pub FromNow : F → List (F × SimEvent F) → Type 0
  FromNow now events = All (λ e. now ≼ e.0) events

  now-le-later : (now : F) (e : ℕ) → now ≼ now ⊕ lit 1 e
  now-le-later now e = le-add_right now (lit 1 e) (lit_nonneg r 1 e)

  module _ (model : SquareRootImpact F) (cap now : F) (market : MarketState F) where
    fill_order-FromNow :
        (tr : TransientImpactTracker F) (o : Order F)
        → FromNow now (fill_order model cap now market tr o).events
    unfolding fill_order
    fill_order-FromNow tr o = elim (Bool-cases (o.quantity ≤? nought)) [
      | inl e ↦ rw e tt
      | inr e ↦ rw e (now-le-later now 9, tt)
    ]

    fill_orders-FromNow :
        (tr : TransientImpactTracker F) (os : List (Order F))
        → FromNow now (fill_orders model cap now market tr os).events
    unfolding fill_orders
    fill_orders-FromNow tr [] = tt
    fill_orders-FromNow tr (o ∷ os) =
        All-append _ (fill_order model cap now market tr o).events _ (fill_order-FromNow tr o)
          (fill_orders-FromNow (fill_order model cap now market tr o).tracker os)

  react-FromNow :
      (e : ExecutionEngine F) (now : F) (event : SimEvent F) (market : MarketState F)
      → FromNow now (react e now event market).1
  unfolding react
  react-FromNow e now (submit_order o) market = fill_orders-FromNow _ _ now market _ _
  react-FromNow e now (cancel_order i) market = tt
  react-FromNow e now (time_tick n) market = fill_orders-FromNow _ _ now market _ _
  react-FromNow e now (price_update p v) market = fill_orders-FromNow _ _ now market _ _
  react-FromNow e now _ market = tt

  -- Whatever the event, the follow-on events that the execution engine returns for it are scheduled at
  -- the time of the event or later.
  pub handle-FromNow :
      (e : ExecutionEngine F) (tse : TimestampedEvent F) (market : MarketState F)
      → FromNow tse.time (handle e tse market).1
  unfolding handle
  handle-FromNow e tse market = react-FromNow e tse.time tse.event market
