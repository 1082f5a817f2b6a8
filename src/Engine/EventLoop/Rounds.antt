-- ===== src/Engine/EventLoop/Rounds.antt =====
-- One round of the loop of src/engine/event_loop.rs: who hears the event, and what is scheduled for it.
use strata_exec.Prelude.{◌≡◌, refl, ◌⊎◌, inl, inr, List, [], ◌∷◌, All, All-map}
use strata_exec.Float.{Float, ◌⊕◌, lit}
use strata_exec.Events.{Order, SimEvent, submit_order}
use strata_exec.Events.Queue.{EventQueue, TimestampedEvent, schedule}
use strata_exec.Market
use strata_exec.Market.{MarketState}
use strata_exec.Execution.Engine
use strata_exec.Engine.EventLoop.{
  Strategy, DesSimulator, schedule_all, schedule_orders, notify, dispatch,
}

module _ {F : Type 0} where
  -- The event e at time t is among the scheduled ones.
  abbrev pub Waits : F → SimEvent F → List (TimestampedEvent F) → Type 0
  Waits t e [] = ⊥
  Waits t e (x ∷ xs) = ((x.time ≡ t) × (x.event ≡ e)) ⊎ Waits t e xs

  -- What waits in one list waits in the other.
  abbrev Keeps : List (TimestampedEvent F) → List (TimestampedEvent F) → Type 0
  Keeps xs ys = (t : F) (e : SimEvent F) → Waits t e xs → Waits t e ys

  -- Each event of one list waits in the other.
  abbrev pub AllWait : List (TimestampedEvent F) → List (TimestampedEvent F) → Type 0
  AllWait scheduled xs = All (λ x. Waits x.time x.event scheduled) xs

  all_wait : (xs ys : List (TimestampedEvent F)) → Keeps xs ys → AllWait ys xs
  all_wait [] ys k = tt
  all_wait (x ∷ xs) ys k =
      (k x.time x.event (inl (refl, refl)), all_wait xs ys (λ t e w. k t e (inr w)))

module _ {F : Type 0} ⦃f : Float F⦄ where
  schedule-Keeps : (q : EventQueue F) (t : F) (e : SimEvent F) → Keeps q.heap (schedule q t e).heap
  unfolding schedule
  schedule-Keeps q t e u d w = inr w

  schedule-Waits : (q : EventQueue F) (t : F) (e : SimEvent F) → Waits t e (schedule q t e).heap
  unfolding schedule
  schedule-Waits q t e = inl (refl, refl)

  schedule_all-Keeps :
      (q : EventQueue F) (events : List (F × SimEvent F))
      → Keeps q.heap (schedule_all q events).heap
  unfolding schedule_all
  schedule_all-Keeps q [] t e w = w
  schedule_all-Keeps q ((u, d) ∷ events) t e w =
      schedule_all-Keeps (schedule q u d) events t e (schedule-Keeps q u d t e w)

  schedule_all-Waits :
      (q : EventQueue F) (events : List (F × SimEvent F))
      → All (λ e. Waits e.0 e.1 (schedule_all q events).heap) events
  unfolding schedule_all
  schedule_all-Waits q [] = tt
  schedule_all-Waits q ((t, e) ∷ events) = (
    schedule_all-Keeps (schedule q t e) events t e (schedule-Waits q t e),
    schedule_all-Waits (schedule q t e) events,
  )

  schedule_orders-Keeps :
      (q : EventQueue F) (now : F) (orders : List (Order F))
      → Keeps q.heap (schedule_orders q now orders).heap
  unfolding schedule_orders
  schedule_orders-Keeps q now [] t e w = w
  schedule_orders-Keeps q now (o ∷ orders) t e w =
      schedule_orders-Keeps (schedule q (now ⊕ lit 1 6) (submit_order o)) now orders t e
        (schedule-Keeps q (now ⊕ lit 1 6) (submit_order o) t e w)

  -- The order is submitted 1e-6 after `now`.
  abbrev pub IsSubmitted : F → List (TimestampedEvent F) → Order F → Type 0
  IsSubmitted now scheduled o = Waits (now ⊕ lit 1 6) (submit_order o) scheduled

  schedule_orders-IsSubmitted :
      (q : EventQueue F) (now : F) (orders : List (Order F))
      → All (IsSubmitted now (schedule_orders q now orders).heap) orders
  unfolding schedule_orders
  schedule_orders-IsSubmitted q now [] = tt
  schedule_orders-IsSubmitted q now (o ∷ orders) =
      let q' = schedule q (now ⊕ lit 1 6) (submit_order o) in
      (
        schedule_orders-Keeps q' now orders (now ⊕ lit 1 6) (submit_order o)
            (schedule-Waits q (now ⊕ lit 1 6) (submit_order o)),
        schedule_orders-IsSubmitted q' now orders,
      )

  module _ {S G : Type 0} (strategy : Strategy F S G) where
    -- The strategies after the event, against those before it: each has reacted once, at some state of the
    -- counters, has become what its reaction says, and its orders are scheduled.
    abbrev pub AllHeard :
        TimestampedEvent F → MarketState F → List (TimestampedEvent F) → List S → List S → Type 0
    AllHeard tse m scheduled [] [] = Unit
    AllHeard tse m scheduled [] (s ∷ after) = ⊥
    AllHeard tse m scheduled (s ∷ before) [] = ⊥
    AllHeard tse m scheduled (s ∷ before) (s' ∷ after) =
        ((g : G) × (s' ≡ (strategy.on_event g s tse.event m).1)
          × All (IsSubmitted tse.time scheduled) (strategy.on_event g s tse.event m).2)
        × AllHeard tse m scheduled before after

    notify-Keeps :
        (tse : TimestampedEvent F) (m : MarketState F) (q : EventQueue F) (g : G) (ss : List S)
        → Keeps q.heap (notify strategy tse m q g ss).0.heap
    unfolding notify
    notify-Keeps tse m q g [] t e w = w
    notify-Keeps tse m q g (s ∷ ss) t e w =
        let out = strategy.on_event g s tse.event m in
        notify-Keeps tse m (schedule_orders q tse.time out.2) out.0 ss t e
          (schedule_orders-Keeps q tse.time out.2 t e w)

    notify-AllHeard :
        (tse : TimestampedEvent F) (m : MarketState F) (q : EventQueue F) (g : G) (ss : List S)
        → let out = notify strategy tse m q g ss in AllHeard tse m out.0.heap ss out.2
    unfolding notify
    notify-AllHeard tse m q g [] = tt
    notify-AllHeard tse m q g (s ∷ ss) =
        let out = strategy.on_event g s tse.event m in
        let q' = schedule_orders q tse.time out.2 in
        let rest = notify strategy tse m q' out.0 ss in
        (
          (
            g,
            refl,
            All-map (IsSubmitted tse.time q'.heap) (IsSubmitted tse.time rest.0.heap) out.2
                (λ o w. notify-Keeps tse m q' out.0 ss (tse.time ⊕ lit 1 6) (submit_order o) w)
                (schedule_orders-IsSubmitted q tse.time out.2),
          ),
          notify-AllHeard tse m q' out.0 ss,
        )

    -- A round of the loop on an event, with any strategies. The market is updated first, and the engine and
    -- the strategies see the updated one. Whatever was scheduled still is, and so is all that the engine
    -- returns; each strategy, in its place, has reacted to the event once and has become what its
    -- reaction says; and each order of a reaction is submitted 1e-6 after the event.
    pub dispatch-AllHeard :
        (sim : DesSimulator F S G) (tse : TimestampedEvent F)
        → let m = (Market.handle sim.market tse).0 in
          let out = dispatch strategy sim tse in
          AllWait out.queue.heap sim.queue.heap
          × All (λ e. Waits e.0 e.1 out.queue.heap) (Engine.handle sim.execution tse m).1
          × AllHeard tse m out.queue.heap sim.strategies out.strategies
    unfolding dispatch
    dispatch-AllHeard sim tse =
        let m = (Market.handle sim.market tse).0 in
        let reported = (Engine.handle sim.execution tse m).1 in
        let q1 = schedule_all sim.queue (Market.handle sim.market tse).1 in
        let q2 = schedule_all q1 reported in
        let kept = notify-Keeps tse m q2 sim.statics sim.strategies in
        (
          all_wait sim.queue.heap _ (λ t e w. kept t e (
              schedule_all-Keeps q1 reported t e
                (schedule_all-Keeps sim.queue (Market.handle sim.market tse).1 t e w))),
          All-map _ _ reported (λ e w. kept e.0 e.1 w) (schedule_all-Waits q1 reported),
          notify-AllHeard tse m q2 sim.statics sim.strategies,
        )
