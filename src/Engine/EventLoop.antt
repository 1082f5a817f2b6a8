-- ===== src/Engine/EventLoop.antt =====
-- src/engine/event_loop.rs and the trait of src/strategies/trait_def.rs: the discrete event loop.
-- `S` is the type of the strategies and `G` that of the process-wide order-id counters (the `static`
-- variables of the strategy files), which a strategy reads and advances.
pub mod Clock
pub mod Runs
pub mod Sales
pub mod Rounds
use Prim.Native.String.{String}
use strata_exec.Prelude.{
  ℕ, zero, suc, ◌+◌, Bool, true, false, Option, none, some, List, [], ◌∷◌, if◌then◌else◌,
}
use strata_exec.Float.{Float, ◌⊕◌, lit}
use strata_exec.Events.{Order, SimEvent, submit_order, simulation_end}
use strata_exec.Events.Queue.{EventQueue, TimestampedEvent, schedule, pop}
use strata_exec.Market
use strata_exec.Market.{MarketState}
use strata_exec.Execution.Engine
use strata_exec.Execution.Engine.{ExecutionEngine}

-- The trait: a reaction returns the counters, the strategy's new state and its orders.
pub record Strategy (F S G : Type 0) : Type 0 where
  pub name : S → String
  pub on_event : G → S → SimEvent F → MarketState F → G × S × List (Order F)
  pub is_complete : S → Bool

pub record DesSimulator (F S G : Type 0) : Type 0 where
  pub queue : EventQueue F
  pub market : MarketState F
  pub execution : ExecutionEngine F
  pub strategies : List S
  pub statics : G

unfoldable pub is_simulation_end : {F : Type 0} → SimEvent F → Bool
is_simulation_end simulation_end = true
is_simulation_end _ = false

module _ {F : Type 0} ⦃f : Float F⦄ where
  -- `for (t, e) in events { self.queue.schedule(t, e); }`
  unfoldable pub schedule_all : EventQueue F → List (F × SimEvent F) → EventQueue F
  schedule_all q [] = q
  schedule_all q ((t, e) ∷ rest) = schedule_all (schedule q t e) rest

  unfoldable pub schedule_orders : EventQueue F → F → List (Order F) → EventQueue F
  schedule_orders q now [] = q
  schedule_orders q now (order ∷ rest) =
      schedule_orders (schedule q (now ⊕ lit 1 6) (submit_order order)) now rest

  module _ {S G : Type 0} (strategy : Strategy F S G) where
    -- The loop over the strategies; each sees the market and the queue that the ones before left.
    unfoldable pub notify :
        TimestampedEvent F → MarketState F → EventQueue F → G → List S → EventQueue F × G × List S
    unfolding schedule_orders
    notify tse market q g [] = (q, g, [])
    notify tse market q g (s ∷ rest) =
        let (g', s', orders) = strategy.on_event g s tse.event market in
        let (q'', g'', rest') = notify tse market (schedule_orders q tse.time orders) g' rest in
        (q'', g'', s' ∷ rest')

    -- One round of the loop on an event that does not end the simulation.
    unfoldable pub dispatch : DesSimulator F S G → TimestampedEvent F → DesSimulator F S G
    unfolding notify schedule_all Market.handle Engine.handle
    dispatch sim tse =
        let (market, market_events) = Market.handle sim.market tse in
        let q1 = schedule_all sim.queue market_events in
        let (execution, exec_events) = Engine.handle sim.execution tse market in
        let q2 = schedule_all q1 exec_events in
        let (q3, statics, strategies) = notify tse market q2 sim.statics sim.strategies in
        record {
          queue = q3;
          market = market;
          execution = execution;
          strategies = strategies;
          statics = statics;
        }

    -- `run` with fuel: `none` where the fuel is used up. The number is the events processed.
    unfoldable pub run : ℕ → ℕ → DesSimulator F S G → Option (ℕ × DesSimulator F S G)
    unfolding dispatch pop
    run zero processed sim = none
    run (suc fuel) processed sim = elim (pop sim.queue) [
      | none ↦ some (processed, sim)
      | some (tse, q) ↦
          let popped = record sim { queue = q } in
          let rest = run fuel (processed + 1) (dispatch popped tse) in
          if is_simulation_end tse.event then some (processed + 1, popped) else rest
    ]
