-- ===== src/Lib.antt =====
-- strata-exec: a verification library for the execution simulator.
--
-- The program sells a quantity of an asset in pieces. A discrete event simulator keeps a priority queue
-- of time-stamped events; a market snapshot, an execution engine and a list of strategies react to
-- each event and schedule more. Beside it, a scheduler trades block by block in one of five modes,
-- three of which ask a risk manager first and two of which never do. An order book and estimators of
-- volatility, flow imbalance and regime feed both. A training environment (src/bin/rl_env) plays episodes
-- of such a sale: each step it lets the market advance, sells a part chosen by the agent from the order
-- book, and at the horizon dumps what is left. Its book comes from recorded snapshots (lob_replay,
-- agg_trades), from a random market (gbm, garch, lob_generator), or from recorded snapshots on which the
-- sale's own impact is laid (counterfactual_lob), with two agents that trade against it (adversarial).
--
-- Which file models which part:
--   Events.antt, Events/Queue.antt       src/events/order.rs, event.rs, queue.rs; src/execution/fills.rs
--   Market.antt                          src/market/state.rs, liquidity.rs
--   Market/OrderBook.antt                src/market/order_book.rs
--   Market/Regime.antt                   src/market/regime.rs
--   Market/Vpin.antt                     src/market/vpin.rs
--   Market/Volatility.antt               src/market/volatility.rs
--   Market/Adversarial.antt              src/market/adversarial.rs
--   Market/LobReplay.antt                src/market/lob_replay.rs; its reader: Market/LobReplay/Parse.antt, Cells.antt
--   Market/AggTrades.antt                src/market/agg_trades.rs; its reader is Market/AggTrades/Rows.antt
--   Market/CounterfactualLob.antt        src/market/counterfactual_lob.rs
--   Market/LobGenerator.antt             src/market/lob_generator.rs
--   Market/Simulators.antt               src/market/gbm.rs, garch.rs
--   Execution/Impact.antt                src/execution/impact.rs, transient_impact.rs
--   Execution/Engine.antt                src/execution/engine.rs
--   Engine/EventLoop.antt                src/engine/event_loop.rs, src/strategies/trait_def.rs
--   Engine/Risk.antt                     src/engine/risk.rs
--   Engine/Scheduler.antt                src/engine/scheduler.rs
--   Strategies/Contract.antt             src/strategies/trait_def.rs, what a selling strategy promises
--   Strategies/Twap.antt                 src/strategies/twap.rs
--   Strategies/Heuristic.antt            src/strategies/heuristic.rs
--   Strategies/Adaptive.antt             src/strategies/adaptive.rs
--   Strategies/AlmgrenChriss.antt        src/strategies/optimal.rs, the model and its schedules
--   Strategies/Optimal.antt              src/strategies/optimal.rs, the strategy that follows them
--   Strategies/RegimeAc.antt             src/strategies/regime_ac.rs
--   Strategies/Ids.antt                  the static order-id counters of the strategy files
--   Analytics/Metrics.antt               src/analytics/metrics.rs; the splits are Analytics/Breakdown.antt
--   Rl/Config.antt, Rl/Config/Parse.antt src/bin/rl_env/config.rs
--   Rl/Cache.antt                        src/bin/rl_env/market_cache.rs
--   Rl/Env.antt, Rl/Env/Observe.antt     src/bin/rl_env/env/mod.rs, state.rs
--   Rl/Env/Fills.antt, Rl/Env/Step.antt  src/bin/rl_env/env/execution.rs
--   Rl/Env/Reset.antt and below          src/bin/rl_env/env/reset.rs
--   Rl/Batch.antt                        src/bin/rl_env/batched.rs
--   Prelude/Text.antt                    the string operations of Rust that the readers call
-- The modules below these hold their proofs; Examples.antt and its children hold concrete inputs.
-- Functions and fields keep their names. A method that changes its receiver returns the new one; a
-- constructor `new` carries the type's name; where a function has a loop or a long branch, the body is
-- a definition of its own.
--
-- Numbers. `f64` is a parameter: a record of operations (Float/Ops.antt), an instance argument of
-- every definition. Float/Laws.antt says what is used of them on finite values: an exact value of each
-- number, comparisons that agree with it, and operations rounded monotonically (`IsRounding`). Where a
-- theorem needs sums and differences to be exact, it takes `IsExact` as well and says so; overflow,
-- NaN and infinities are outside these laws. Float/Fixed.antt is a decimal fixed point that satisfies
-- all of them. `u64` and `usize` are natural numbers without a bound: the counters of the program
-- count events and orders. `BinaryHeap` is its contract, a list from which `pop` takes a greatest
-- element.
--
-- Parameters. The distributions of `rand` are a record of draws that pass a generator's state on
-- (`Rng` in Market/Simulators.antt). The text of a number and of a date becomes a value by functions
-- the readers take as arguments, since those parsers are not the program's; a file is the header and
-- the records that the `csv` crate gives of it.
--
-- Fuel. `run` (Engine/EventLoop.antt) and `add_trade` (Market/Vpin.antt) take fuel and return `none`
-- when it is used up. For `add_trade` one round more than the number of buckets that hold the volume is
-- enough; the series of lob_replay and agg_trades pass it on. `show_digits` has 20 rounds, as many
-- digits as a `usize` can have. A simulation whose strategies go on submitting orders need not end, so the theorem on `run`
-- describes both outcomes for every amount of fuel.
--
-- Not modelled: the live engine, the blockchain client and the HTTP interface, which send what the
-- modelled parts decide; calibration and the sample statistics of finished runs
-- (src/analytics/distribution.rs); the research harness and the other command line tools, which vary
-- inputs and print tables; configuration files, logging and error texts; the JSON transport of src/bin/rl_env and its report
-- beyond the summary of an episode; the frontend and the training code in Python.
pub mod Prelude
pub mod Float
pub mod Events
pub mod Market
pub mod Analytics
pub mod Rl
pub mod Execution
pub mod Strategies
pub mod Engine
mod Examples
