-- ===== src/Examples/Loop.antt =====
-- The event loop at concrete inputs: a strategy that submits one order on the first tick, as the
-- source's test does.
use strata_exec.Prelude.{
  ℕ, ◌+◌, ◌≡◌, refl, Bool, true, false, some, List, [], ◌∷◌, All, length, arith,
}
use strata_exec.Prelude.Int.{ℤ}
use strata_exec.Float.{lit}
use strata_exec.Float.Fixed.{fixed_float, fixed_rounding, fixed_lit}
use strata_exec.Events.{Order, market_sell, SimEvent, time_tick, simulation_end}
use strata_exec.Events.Queue.{EventQueue, TimestampedEvent, new_queue, schedule, pop}
use strata_exec.Events.Queue.Laws.{new_queue-IsValid, schedule-IsValid}
use strata_exec.Market
use strata_exec.Market.{MarketState}
use strata_exec.Execution.Engine
use strata_exec.Execution.Engine.{ExecutionEngine}
use strata_exec.Execution.Impact.{new_tracker}
use strata_exec.Engine.EventLoop.{Strategy, DesSimulator, is_simulation_end, dispatch}
use strata_exec.Engine.EventLoop.Clock.{IsAhead}
use strata_exec.Engine.EventLoop.Runs.{
  Runs, here, next, popped, Outcome, run-Outcome, IsAscending, Runs-IsAscending,
}
use strata_exec.Engine.EventLoop.Sales.{IsForward, AreSales, Runs-AreSales}
use strata_exec.Engine.EventLoop.Rounds.{Waits, AllWait, AllHeard, dispatch-AllHeard}
use strata_exec.Strategies.Ids.{OrderIds, initial_ids}
use strata_exec.Strategies.Contract.{FillsForward, IsSale}
use strata_exec.Examples.Data.{given}
use strata_exec.Strategies.Twap.{TwapStrategy, new_twap}
use strata_exec.Strategies.Twap.Seller.{twap_strategy, twap_strategy-IsSeller}

abbrev one_shot : Strategy ℤ Bool ℕ
one_shot = record { name = λ s. "OneShot"; on_event = shoot; is_complete = λ s. s }
  where
    shoot : ℕ → Bool → SimEvent ℤ → MarketState ℤ → ℕ × Bool × List (Order ℤ)
    shoot n false (time_tick _) market = (n + 1, true, market_sell n "OneShot" (lit 3 0) ∷ [])
    shoot n s _ market = (n, s, [])

abbrev market : MarketState ℤ
market = record {
  price = lit 100 0;
  volatility = lit 5 1;
  liquidity = record { reserve_in = lit 100 0; reserve_out = lit 200 0 };
  step = 0;
}

abbrev engine : ExecutionEngine ℤ
engine = record {
  pending_orders = [];
  impact_model = record { daily_volume = lit 1000 0; impact_coefficient = lit 1 1 };
  transient_tracker = new_tracker (lit 1 0);
  max_fill_qty = lit 5 0;
}

abbrev tick_queue : EventQueue ℤ
tick_queue = schedule (schedule new_queue (lit 1 0) (time_tick 0)) (lit 9 0) simulation_end

abbrev simulator : DesSimulator ℤ Bool ℕ
simulator = record {
  queue = tick_queue;
  market = market;
  execution = engine;
  strategies = false ∷ [];
  statics = 1;
}

tick_queue-IsAhead : IsAhead (lit 1 0) tick_queue
unfolding schedule new_queue fixed_lit
tick_queue-IsAhead = record {
  valid =
      schedule-IsValid (schedule new_queue (lit 1 0) (time_tick 0)) (lit 9 0) simulation_end
        (schedule-IsValid new_queue (lit 1 0) (time_tick 0) new_queue-IsValid);
  ahead = (omega arith, (omega arith, tt));
}

abbrev tick : TimestampedEvent ℤ
tick = record { time = lit 1 0; seq = 0; event = time_tick 0 }

abbrev end_queue : EventQueue ℤ
end_queue = record {
  heap = record { time = lit 9 0; seq = 1; event = simulation_end } ∷ [];
  next_seq = 2;
}

pop-tick : pop simulator.queue ≡ some (tick, end_queue)
unfolding pop schedule new_queue fixed_lit
pop-tick = refl

first_round :
    Runs one_shot simulator (tick ∷ []) (dispatch one_shot (popped simulator end_queue) tick)
unfolding is_simulation_end
first_round = next (tick, end_queue) pop-tick refl here

Runs-IsAscending_example : IsAscending (lit 1 0) (tick ∷ [])
Runs-IsAscending_example = Runs-IsAscending one_shot (lit 1 0) tick_queue-IsAhead first_round

run-Outcome_example : Outcome one_shot 20 0 simulator
run-Outcome_example = run-Outcome one_shot 20 0 simulator

-- TWAP over two steps, beside the tick and the end.
abbrev twap_simulator : DesSimulator ℤ (TwapStrategy ℤ) OrderIds
twap_simulator = record {
  queue = tick_queue;
  market = market;
  execution = engine;
  strategies = new_twap (lit 6 0) 2 ∷ [];
  statics = initial_ids;
}

new_twap-IsSale :
    IsSale {F = ℤ}
      (new_twap (lit 6 0) 2).remaining_notional
      (new_twap {F = ℤ} (lit 6 0) 2).completed
unfolding new_twap fixed_lit
new_twap-IsSale = record { sold = λ p. cc; unsold = λ p. omega arith }

first_twap_round :
    Runs twap_strategy twap_simulator
      (tick ∷ [])
      (dispatch twap_strategy (popped twap_simulator end_queue) tick)
unfolding is_simulation_end
first_twap_round = next (tick, end_queue) pop-tick refl here

twap_simulator-IsForward : IsForward twap_simulator
unfolding schedule new_queue
twap_simulator-IsForward = record { scheduled = (tt, (tt, tt)); cap_nonneg = given 5 0 }

Runs-AreSales_example :
    All (λ e. FillsForward e.event) (tick ∷ [])
    × (length (dispatch twap_strategy (popped twap_simulator end_queue) tick).strategies ≡ 1)
    × AreSales twap_strategy
        (λ s. s.remaining_notional)
        twap_strategy-IsSeller
        (dispatch twap_strategy (popped twap_simulator end_queue) tick).strategies
Runs-AreSales_example =
    Runs-AreSales twap_strategy (λ s. s.remaining_notional) twap_strategy-IsSeller first_twap_round
      twap_simulator-IsForward (new_twap-IsSale, tt)

dispatch-AllHeard_example :
    let m = (Market.handle twap_simulator.market tick).0 in
    let out = dispatch twap_strategy twap_simulator tick in
    AllWait out.queue.heap twap_simulator.queue.heap
    × All (λ e. Waits e.0 e.1 out.queue.heap) (Engine.handle twap_simulator.execution tick m).1
    × AllHeard twap_strategy tick m out.queue.heap twap_simulator.strategies out.strategies
dispatch-AllHeard_example = dispatch-AllHeard twap_strategy twap_simulator tick
