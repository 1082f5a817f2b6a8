-- ===== src/Engine/EventLoop/Sales.antt =====
-- The loop of src/engine/event_loop.rs as a client of the contract of its strategies, and of the engine's
-- fills.
use strata_exec.Prelude.{◌≡◌, refl, ◌∙◌, List, [], ◌∷◌, All, length, arith}
use strata_exec.Float.{Float, ◌⊕◌, lit}
use strata_exec.Float.Laws.{IsRounding}
use strata_exec.Float.Order.{IsNonneg}
use strata_exec.Events.{Order, SimEvent, submit_order, cancel_order, time_tick, price_update}
use strata_exec.Events.Queue.{EventQueue, TimestampedEvent, schedule}
use strata_exec.Events.Queue.Drain.{pop-All}
use strata_exec.Market
use strata_exec.Market.{MarketState}
use strata_exec.Execution.Engine
use strata_exec.Execution.Engine.{ExecutionEngine, try_fill, react}
use strata_exec.Execution.Engine.Forward.{AreForward, handle-AreForward}
use strata_exec.Engine.EventLoop.{
  Strategy, DesSimulator, schedule_all, schedule_orders, notify, dispatch,
}
use strata_exec.Engine.EventLoop.Runs.{Runs, here, next, popped}
use strata_exec.Strategies.Contract.{FillsForward, IsSale, IsSeller}

module _ {F : Type 0} ⦃f : Float F⦄ where
  react-max_fill_qty :
      (e : ExecutionEngine F) (now : F) (event : SimEvent F) (m : MarketState F)
      → (react e now event m).0.max_fill_qty ≡ e.max_fill_qty
  unfolding react try_fill
  react-max_fill_qty e now (submit_order o) m = refl
  react-max_fill_qty e now (cancel_order i) m = refl
  react-max_fill_qty e now (time_tick n) m = refl
  react-max_fill_qty e now (price_update p v) m = refl
  react-max_fill_qty e now _ m = refl

  handle-max_fill_qty :
      (e : ExecutionEngine F) (tse : TimestampedEvent F) (m : MarketState F)
      → (Engine.handle e tse m).0.max_fill_qty ≡ e.max_fill_qty
  unfolding Engine.handle
  handle-max_fill_qty e tse m = react-max_fill_qty e tse.time tse.event m

module _ {F : Type 0} ⦃f : Float F⦄ ⦃r : IsRounding F⦄ where
  -- No scheduled event reports a negative fill.
  abbrev pub Forward : EventQueue F → Type 0
  Forward q = All (λ x. FillsForward x.event) q.heap

  schedule_all-Forward :
      (q : EventQueue F) (events : List (F × SimEvent F))
      → AreForward events
      → Forward q
      → Forward (schedule_all q events)
  unfolding schedule_all schedule
  schedule_all-Forward q [] h a = a
  schedule_all-Forward q ((t, e) ∷ events) (h, hs) a =
      schedule_all-Forward (schedule q t e) events hs (h, a)

  schedule_orders-Forward :
      (q : EventQueue F) (now : F) (orders : List (Order F))
      → Forward q
      → Forward (schedule_orders q now orders)
  unfolding schedule_orders schedule
  schedule_orders-Forward q now [] a = a
  schedule_orders-Forward q now (o ∷ orders) a =
      schedule_orders-Forward (schedule q (now ⊕ lit 1 6) (submit_order o)) now orders (tt, a)

  -- No scheduled event reports a negative fill, and the engine cannot make one.
  pub record IsForward {S G : Type 0} (sim : DesSimulator F S G) : Type 0 where
    pub scheduled : Forward sim.queue
    pub cap_nonneg : IsNonneg sim.execution.max_fill_qty

  module _ {S G : Type 0} (strategy : Strategy F S G) where
    notify-Forward :
        (tse : TimestampedEvent F) (m : MarketState F) (q : EventQueue F) (g : G) (ss : List S)
        → Forward q
        → Forward (notify strategy tse m q g ss).0
    unfolding notify
    notify-Forward tse m q g [] a = a
    notify-Forward tse m q g (s ∷ ss) a =
        let out = strategy.on_event g s tse.event m in
        notify-Forward tse m (schedule_orders q tse.time out.2) out.0 ss
          (schedule_orders-Forward q tse.time out.2 a)

    dispatch-IsForward :
        (sim : DesSimulator F S G) (tse : TimestampedEvent F)
        → IsForward sim
        → IsForward (dispatch strategy sim tse)
    unfolding dispatch
    dispatch-IsForward sim tse h =
        let m = (Market.handle sim.market tse).0 in
        record {
          scheduled = notify-Forward tse m _ sim.statics sim.strategies (
              schedule_all-Forward sim.queue (Engine.handle sim.execution tse m).1
                (handle-AreForward sim.execution tse m h.cap_nonneg) h.scheduled);
          cap_nonneg = rw (handle-max_fill_qty sim.execution tse m) h.cap_nonneg;
        }

    length-notify :
        (tse : TimestampedEvent F) (m : MarketState F) (q : EventQueue F) (g : G) (ss : List S)
        → length (notify strategy tse m q g ss).2 ≡ length ss
    unfolding notify
    length-notify tse m q g [] = refl
    length-notify tse m q g (s ∷ ss) =
        let out = strategy.on_event g s tse.event m in
        omega (arith, length-notify tse m (schedule_orders q tse.time out.2) out.0 ss)

    length-dispatch :
        (sim : DesSimulator F S G) (tse : TimestampedEvent F)
        → length (dispatch strategy sim tse).strategies ≡ length sim.strategies
    unfolding dispatch
    length-dispatch sim tse = length-notify tse _ _ sim.statics sim.strategies

  module _ {S G : Type 0} (strategy : Strategy F S G) (left : S → F)
      (c : IsSeller strategy left) where
    -- Every strategy's sale is in order.
    abbrev pub AreSales : List S → Type 0
    AreSales ss = All (λ s. IsSale (left s) (strategy.is_complete s)) ss

    notify-AreSales :
        (tse : TimestampedEvent F) (m : MarketState F) (q : EventQueue F) (g : G) (ss : List S)
        → FillsForward tse.event
        → AreSales ss
        → AreSales (notify strategy tse m q g ss).2
    unfolding notify
    notify-AreSales tse m q g [] h i = tt
    notify-AreSales tse m q g (s ∷ ss) h (i, is) =
        let out = strategy.on_event g s tse.event m in
        (
          c.keeps g s tse.event m h i,
          notify-AreSales tse m (schedule_orders q tse.time out.2) out.0 ss h is,
        )

    dispatch-AreSales :
        (sim : DesSimulator F S G) (tse : TimestampedEvent F)
        → FillsForward tse.event
        → AreSales sim.strategies
        → AreSales (dispatch strategy sim tse).strategies
    unfolding dispatch
    dispatch-AreSales sim tse h i = notify-AreSales tse _ _ sim.statics sim.strategies h i

    -- The loop closed over its engine: in a run from a simulator that schedules no negative fill, whose
    -- engine's cap on fills is not negative and whose strategies fulfil the contract, the engine's
    -- own reports among the events. No event of the run reports a negative fill; the strategies stay as
    -- many; and every strategy's sale stays in order: it is complete exactly when nothing is left of
    -- it by its own account, and more than 1e-8 is left otherwise.
    pub Runs-AreSales :
        {s t : DesSimulator F S G} {es : List (TimestampedEvent F)}
        → Runs strategy s es t
        → IsForward s
        → AreSales s.strategies
        → All (λ e. FillsForward e.event) es
          × (length t.strategies ≡ length s.strategies)
          × AreSales t.strategies
    Runs-AreSales here h i = (tt, refl, i)
    Runs-AreSales {s} (next p e more runs) h i =
        let (first, rest) = pop-All (λ x. FillsForward x.event) s.queue h.scheduled e in
        let from : IsForward (popped s p.1) = record {
          scheduled = rest;
          cap_nonneg = h.cap_nonneg;
        } in
        let (fills, count, sales) =
          Runs-AreSales runs (dispatch-IsForward strategy (popped s p.1) p.0 from)
            (dispatch-AreSales (popped s p.1) p.0 first i) in
        ((first, fills), count ∙ length-dispatch strategy (popped s p.1) p.0, sales)
