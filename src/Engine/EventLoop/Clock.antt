-- ===== src/Engine/EventLoop/Clock.antt =====
-- The clock of src/engine/event_loop.rs: what a round leaves in the queue is not in the past.
use strata_exec.Prelude.{List, [], ◌∷◌, All}
use strata_exec.Float.{Float, ◌⊕◌, lit}
use strata_exec.Float.Laws.{IsRounding}
use strata_exec.Float.Order.{◌≼◌, le-add_right, lit_nonneg}
use strata_exec.Events.{Order, SimEvent, submit_order}
use strata_exec.Events.Queue.{EventQueue, TimestampedEvent, schedule}
use strata_exec.Events.Queue.Laws.{IsValid, schedule-IsValid}
use strata_exec.Market
use strata_exec.Market.{MarketState}
use strata_exec.Execution.Engine
use strata_exec.Execution.Engine.Times.{FromNow, handle-FromNow}
use strata_exec.Engine.EventLoop.{
  Strategy, DesSimulator, schedule_all, schedule_orders, notify, dispatch,
}

module _ {F : Type 0} ⦃f : Float F⦄ ⦃r : IsRounding F⦄ where
  -- A well-formed queue with no event before `now`.
  pub record IsAhead (now : F) (q : EventQueue F) : Type 0 where
    pub valid : IsValid q
    pub ahead : All (λ x. now ≼ x.time) q.heap

  schedule-IsAhead :
      (now : F) (q : EventQueue F) (t : F) (e : SimEvent F)
      → now ≼ t
      → IsAhead now q
      → IsAhead now (schedule q t e)
  unfolding schedule
  schedule-IsAhead now q t e h a = record {
    valid = schedule-IsValid q t e a.valid;
    ahead = (h, a.ahead);
  }

  schedule_all-IsAhead :
      (now : F) (q : EventQueue F) (events : List (F × SimEvent F))
      → FromNow now events
      → IsAhead now q
      → IsAhead now (schedule_all q events)
  unfolding schedule_all
  schedule_all-IsAhead now q [] h a = a
  schedule_all-IsAhead now q ((t, e) ∷ events) (h, hs) a =
      schedule_all-IsAhead now (schedule q t e) events hs (schedule-IsAhead now q t e h a)

  schedule_orders-IsAhead :
      (now : F) (q : EventQueue F) (orders : List (Order F))
      → IsAhead now q
      → IsAhead now (schedule_orders q now orders)
  unfolding schedule_orders
  schedule_orders-IsAhead now q [] a = a
  schedule_orders-IsAhead now q (o ∷ orders) a =
      schedule_orders-IsAhead now (schedule q (now ⊕ lit 1 6) (submit_order o)) orders (
        schedule-IsAhead now q (now ⊕ lit 1 6) (submit_order o)
          (le-add_right now (lit 1 6) (lit_nonneg r 1 6)) a)

  module _ {S G : Type 0} (strategy : Strategy F S G) where
    notify-IsAhead :
        (tse : TimestampedEvent F) (market : MarketState F) (q : EventQueue F) (g : G)
        (strategies : List S)
        → IsAhead tse.time q
        → IsAhead tse.time (notify strategy tse market q g strategies).0
    unfolding notify
    notify-IsAhead tse market q g [] a = a
    notify-IsAhead tse market q g (s ∷ strategies) a =
        let out = strategy.on_event g s tse.event market in
        notify-IsAhead tse market (schedule_orders q tse.time out.2) out.0 strategies
          (schedule_orders-IsAhead tse.time q out.2 a)

    -- Whatever the strategies do, a round that processes an event, from a well-formed queue with no event
    -- before its time, schedules nothing before the time
    -- of that event and keeps the queue well formed.
    pub dispatch-IsAhead :
        (sim : DesSimulator F S G) (tse : TimestampedEvent F)
        → IsAhead tse.time sim.queue
        → IsAhead tse.time (dispatch strategy sim tse).queue
    unfolding dispatch
    dispatch-IsAhead sim tse a = notify-IsAhead tse _ _ sim.statics sim.strategies (
        schedule_all-IsAhead tse.time sim.queue
          (Engine.handle sim.execution tse (Market.handle sim.market tse).0).1
          (handle-FromNow sim.execution tse (Market.handle sim.market tse).0) a)
