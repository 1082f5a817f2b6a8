-- ===== src/Engine/Scheduler.antt =====
-- src/engine/scheduler.rs: the block scheduler, which books chunks of the notional in one of five
-- modes, two of which bypass the risk manager.
pub mod Progress
pub mod Bypass
pub mod Limits
pub mod Twap
use Prim.Native.Nat.{max}
use strata_exec.Prelude.{
  ℕ, ◌+◌, ◌-◌, Bool, true, false, ◌||◌, Option, none, some, List, [], ◌∷◌, ltb, get_elem?,
  if◌then◌else◌, Result, ok, err,
}
use strata_exec.Float.{Float, ◌⊖◌, ◌⊗◌, ◌<?◌, ◌≤?◌, ◌=?◌, lit, nought, fmin, fmax}
use strata_exec.Market.{LiquiditySnapshot, depth_metric}
use strata_exec.Engine.Risk.{RiskManager, Denial, request_execute_chunk}
use strata_exec.Strategies.AlmgrenChriss
use strata_exec.Strategies.AlmgrenChriss.{AlmgrenChriss, ModelError, new_model}
use strata_exec.Strategies.Heuristic
use strata_exec.Strategies.Heuristic.{HeuristicStrategy, new_heuristic}
use strata_exec.Strategies.Adaptive
use strata_exec.Strategies.Adaptive.{AdaptiveOptimalStrategy, new_adaptive, derived_horizon}
use strata_exec.Strategies.RegimeAc
use strata_exec.Strategies.RegimeAc.{RegimeAcStrategy, new_regime_ac}

pub data ExecutionMode : Type 0 where
  twap heuristic optimal adaptive_optimal regime_ac : ExecutionMode

pub record Scheduler (F : Type 0) : Type 0 where
  pub risk : RiskManager F
  pub total_notional : F
  pub remaining_notional : F
  pub completed : Bool
  pub mode : ExecutionMode
  pub execution_schedule : Option (List F)
  pub current_step : ℕ
  pub heuristic : HeuristicStrategy F
  pub adaptive : AdaptiveOptimalStrategy F
  pub regime_ac : Option (RegimeAcStrategy F)
  pub twap_qty_per_step : F
  pub eta : F
  pub lambda : F
  pub sigma_ref : F
  pub initial_horizon : ℕ
  pub current_half_spread : F

unfoldable pub is_ok : {E A : Type 0} → Result E A → Bool
is_ok (ok a) = true
is_ok (err e) = false

module _ {F : Type 0} ⦃f : Float F⦄ where
  unfoldable pub first_horizon : ExecutionMode → F → F → F → Option ℕ → ℕ
  unfolding derived_horizon
  first_horizon mode eta lambda sigma_ref (some h) = max h 1
  first_horizon ExecutionMode.adaptive_optimal eta lambda sigma_ref none =
      if nought <? eta then derived_horizon eta lambda sigma_ref else 0
  first_horizon _ eta lambda sigma_ref none = 0

  unfoldable pub first_regime_ac : ExecutionMode → F → ℕ → F → F → Option (RegimeAcStrategy F)
  unfolding new_regime_ac
  first_regime_ac ExecutionMode.regime_ac total_notional horizon eta sigma_ref =
      some (new_regime_ac total_notional (max horizon 1) eta sigma_ref (sigma_ref ⊗ lit 5 1))
  first_regime_ac _ total_notional horizon eta sigma_ref = none

  unfoldable pub new_scheduler :
      RiskManager F → F → F → F → F → ExecutionMode → F → F → Option ℕ → Scheduler F
  unfolding first_horizon first_regime_ac new_heuristic new_adaptive
  new_scheduler risk total_notional base_chunk sigma_ref liquidity_ref mode eta lambda override =
      let initial_horizon = first_horizon mode eta lambda sigma_ref override in
      record {
        risk = risk;
        total_notional = total_notional;
        remaining_notional = total_notional;
        completed = false;
        mode = mode;
        execution_schedule = none;
        current_step = 0;
        heuristic = new_heuristic base_chunk sigma_ref liquidity_ref total_notional;
        adaptive = new_adaptive eta lambda liquidity_ref sigma_ref total_notional;
        regime_ac = first_regime_ac mode total_notional initial_horizon eta sigma_ref;
        twap_qty_per_step = base_chunk;
        eta = eta;
        lambda = lambda;
        sigma_ref = sigma_ref;
        initial_horizon = initial_horizon;
        current_half_spread = nought;
      }

  unfoldable pub anchor : F → Option (RegimeAcStrategy F) → Option (RegimeAcStrategy F)
  unfolding fmax
  anchor half_spread none = none
  anchor half_spread (some rac) = some (
      if rac.spread_ref ≤? lit 1 15 || rac.spread_ref =? (rac.sigma_ref ⊗ lit 5 1)
      then record rac { spread_ref = fmax half_spread (lit 1 15) }
      else rac)

  unfoldable pub set_half_spread : Scheduler F → F → Scheduler F
  unfolding anchor
  set_half_spread s half_spread = record s {
    current_half_spread = half_spread;
    regime_ac = anchor half_spread s.regime_ac;
  }

  unfoldable pub book : Scheduler F → F → Scheduler F
  book s chunk =
      let remaining = s.remaining_notional ⊖ chunk in
      let over = remaining ≤? lit 1 8 in
      record s {
        remaining_notional = if over then nought else remaining;
        completed = if over then true else s.completed;
      }

  -- The chunk is booked where the test allows it, and the other scheduler taken where not.
  unfoldable pub book_or : Bool → Scheduler F → F → Scheduler F → Scheduler F
  unfolding book
  book_or true s chunk other = book s chunk
  book_or false s chunk other = other

  -- The chunk is booked and the step counted where the risk manager allowed it.
  unfoldable pub book_step : Bool → Scheduler F → F → Scheduler F
  unfolding book
  book_step true s chunk = let s' = book s chunk in record s' { current_step = s'.current_step + 1 }
  book_step false s chunk = s

  -- `request_execute_chunk` on the scheduler's risk manager, and whether it said `ok`.
  unfoldable pub ask_risk : Scheduler F → F → F → Scheduler F × Bool
  unfolding is_ok request_execute_chunk
  ask_risk s chunk predicted_slippage =
      let (risk, answer) = request_execute_chunk s.risk chunk predicted_slippage in
      (record s { risk = risk }, is_ok answer)

  unfoldable pub on_block_twap : Scheduler F → Scheduler F
  unfolding fmin
  on_block_twap s =
      let chunk = fmin s.twap_qty_per_step s.remaining_notional in
      book_or (lit 1 10 <? chunk) s chunk s

  unfoldable pub on_block_heuristic : Scheduler F → F → LiquiditySnapshot F → Scheduler F
  unfolding ask_risk fmin
  on_block_heuristic s volatility liquidity =
      let (h, chunk) =
        Heuristic.compute_chunk s.heuristic volatility liquidity s.remaining_notional in
      let s0 = record s { heuristic = h } in
      let liq = depth_metric liquidity in
      let (s1, whole) = ask_risk s0 chunk (Heuristic.predict_slippage h chunk liq volatility) in
      let half = fmin (chunk ⊗ lit 5 1) s1.remaining_notional in
      let (s2, halved) = ask_risk s1 half (Heuristic.predict_slippage h half liq volatility) in
      book_or whole s1 chunk (book_or halved s2 half s2)

  -- `self.execution_schedule` once it is there.
  unfoldable pub follow_schedule :
      Scheduler F → F → LiquiditySnapshot F → List F → Option F → Scheduler F
  unfolding ask_risk fmin
  follow_schedule s volatility liquidity trades none = record s {
    remaining_notional = nought;
    completed = true;
  }
  follow_schedule s volatility liquidity trades (some trade) =
      let chunk = fmin trade s.remaining_notional in
      let (s1, allowed) =
        ask_risk s chunk
          (Adaptive.predict_slippage s.adaptive chunk (depth_metric liquidity) volatility) in
      book_step allowed s1 chunk

  -- The schedule that is there, or the one built from a model and stored with the step reset.
  unfoldable pub with_model :
      Scheduler F → Result (ModelError F) (AlmgrenChriss F) → Result (ModelError F) (Scheduler F)
  with_model s (err e) = err e
  with_model s (ok m) =
      ok (record s { execution_schedule = some (AlmgrenChriss.schedule m); current_step = 0 })

  unfoldable pub with_schedule :
      Scheduler F → F → Option (List F) → Result (ModelError F) (Scheduler F)
  unfolding with_model
  with_schedule s volatility (some trades) = ok s
  with_schedule s volatility none = with_model s (
      new_model s.total_notional s.eta s.lambda
        (if nought <? volatility then volatility else s.sigma_ref)
        (if ltb 0 s.initial_horizon then some s.initial_horizon else none))

  unfoldable pub step_schedule :
      Scheduler F → F → LiquiditySnapshot F → Option (List F) → Scheduler F
  unfolding follow_schedule
  step_schedule s volatility liquidity none = s
  step_schedule s volatility liquidity (some trades) =
      follow_schedule s volatility liquidity trades (get_elem? trades s.current_step)

  unfoldable pub after_schedule :
      Scheduler F
      → F
      → LiquiditySnapshot F
      → Result (ModelError F) (Scheduler F)
      → Scheduler F × Result (ModelError F) (Unit {0})
  unfolding step_schedule
  after_schedule s volatility liquidity (err e) = (s, err e)
  after_schedule s volatility liquidity (ok s') =
      (step_schedule s' volatility liquidity s'.execution_schedule, ok tt)

  unfoldable pub on_block_optimal :
      Scheduler F → F → LiquiditySnapshot F → Scheduler F × Result (ModelError F) (Unit {0})
  unfolding with_schedule after_schedule
  on_block_optimal s volatility liquidity =
      after_schedule s volatility liquidity (with_schedule s volatility s.execution_schedule)

  unfoldable pub on_block_adaptive_optimal : Scheduler F → F → LiquiditySnapshot F → Scheduler F
  unfolding ask_risk
  on_block_adaptive_optimal s volatility liquidity =
      let q_t =
        Adaptive.compute_chunk s.adaptive volatility liquidity s.remaining_notional
          (s.initial_horizon - s.current_step) in
      let (s1, allowed) =
        ask_risk s q_t
          (Adaptive.predict_slippage s.adaptive q_t (depth_metric liquidity) volatility) in
      book_step allowed s1 q_t

  unfoldable pub step_regime : Scheduler F → F → Option (RegimeAcStrategy F) → Scheduler F
  step_regime s volatility none = s
  step_regime s volatility (some rac) =
      let (rac', qty) = RegimeAc.on_block rac volatility s.current_half_spread in
      let s' = record s { regime_ac = some rac' } in book_or (lit 1 10 <? qty) s' qty s'

  unfoldable pub in_mode :
      ExecutionMode
      → Scheduler F
      → F
      → LiquiditySnapshot F
      → Scheduler F × Result (ModelError F) (Unit {0})
  unfolding on_block_twap on_block_heuristic on_block_optimal on_block_adaptive_optimal step_regime
  in_mode ExecutionMode.twap s volatility liquidity = (on_block_twap s, ok tt)
  in_mode ExecutionMode.heuristic s volatility liquidity =
      (on_block_heuristic s volatility liquidity, ok tt)
  in_mode ExecutionMode.optimal s volatility liquidity = on_block_optimal s volatility liquidity
  in_mode ExecutionMode.adaptive_optimal s volatility liquidity =
      (on_block_adaptive_optimal s volatility liquidity, ok tt)
  in_mode ExecutionMode.regime_ac s volatility liquidity =
      (step_regime s volatility s.regime_ac, ok tt)

  unfoldable pub on_block :
      Scheduler F → F → LiquiditySnapshot F → Scheduler F × Result (ModelError F) (Unit {0})
  unfolding in_mode
  on_block s volatility liquidity =
      if s.completed then (s, ok tt) else in_mode s.mode s volatility liquidity
