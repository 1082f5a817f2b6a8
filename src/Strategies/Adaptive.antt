-- ===== src/Strategies/Adaptive.antt =====
-- src/strategies/adaptive.rs: the receding-horizon rule with live volatility and depth.
pub mod Seller
use Prim.Native.Nat.{max}
use strata_exec.Prelude.{ℕ, ◌+◌, ◌-◌, Bool, true, false, not, ◌||◌, List, [], ◌∷◌, if◌then◌else◌}
use strata_exec.Float.{Float, ◌⊕◌, ◌⊖◌, ◌⊗◌, ◌⊘◌, ◌<?◌, ◌≤?◌, lit, nought, one, fmax, fabs, clamp}
use strata_exec.Events.{Order, market_sell, SimEvent, time_tick, order_filled, partial_fill}
use strata_exec.Market.{MarketState, LiquiditySnapshot, depth_metric}
use strata_exec.Strategies.Ids.{OrderIds, fetch_add}
use strata_exec.Strategies.AlmgrenChriss.{clamp_horizon}

pub record AdaptiveOptimalStrategy (F : Type 0) : Type 0 where
  pub eta : F
  pub lambda : F
  pub liquidity_ref : F
  pub alpha : F
  pub beta : F
  pub remaining_notional : F
  pub initial_horizon : ℕ
  pub current_step : ℕ
  pub completed : Bool

module _ {F : Type 0} ⦃f : Float F⦄ where
  -- The horizon that the constructor, and the scheduler's, derive from the parameters.
  unfoldable pub derived_horizon : F → F → F → ℕ
  unfolding fmax
  derived_horizon eta lambda sigma_ref =
      let sigma = fmax sigma_ref (lit 1 8) in
      let kappa = f.sqrt (lambda ⊗ sigma ⊗ sigma ⊘ eta) in
      clamp_horizon (f.ceil_usize (lit 3 0 ⊘ (kappa ⊕ lit 1 12)))

  unfoldable pub new_adaptive : F → F → F → F → F → AdaptiveOptimalStrategy F
  unfolding derived_horizon
  new_adaptive eta lambda liquidity_ref sigma_ref total_notional = record {
    eta = eta;
    lambda = lambda;
    liquidity_ref = liquidity_ref;
    alpha = lit 1 2;
    beta = lit 5 3;
    remaining_notional = total_notional;
    initial_horizon = if nought <? eta then derived_horizon eta lambda sigma_ref else 50;
    current_step = 0;
    completed = false;
  }

  unfoldable pub predict_slippage : AdaptiveOptimalStrategy F → F → F → F → F
  unfolding fmax
  predict_slippage s chunk liq volatility =
      s.alpha ⊗ (chunk ⊘ fmax liq (lit 1 8)) ⊕ s.beta ⊗ volatility

  -- `q_t` before it is clamped.
  unfoldable pub proposed : F → F → ℕ → F
  unfolding fabs
  proposed kappa_t remaining_inventory remaining_horizon =
      let rh = f.of_usize remaining_horizon in
      let sinh_denom = f.sinh (kappa_t ⊗ rh) in
      if kappa_t <? lit 1 12
      then remaining_inventory ⊘ rh
      else if not (f.is_finite sinh_denom) || fabs sinh_denom <? lit 1 15
      then remaining_inventory ⊘ rh
      else remaining_inventory ⊖ remaining_inventory ⊗ f.sinh (kappa_t ⊗ (rh ⊖ one)) ⊘ sinh_denom

  unfoldable pub compute_chunk : AdaptiveOptimalStrategy F → F → LiquiditySnapshot F → F → ℕ → F
  unfolding proposed clamp fmax
  compute_chunk s volatility liquidity remaining_inventory remaining_horizon =
      let sigma_t = fmax volatility (lit 1 8) in
      let depth_t = depth_metric liquidity in
      let eta_t = s.eta ⊗ clamp (s.liquidity_ref ⊘ fmax depth_t (lit 1 8)) (lit 25 2) (lit 4 0) in
      let kappa_t = f.sqrt (s.lambda ⊗ sigma_t ⊗ sigma_t ⊘ eta_t) in
      clamp (proposed kappa_t remaining_inventory (max remaining_horizon 1)) nought
        remaining_inventory

  unfoldable pub record_fill : AdaptiveOptimalStrategy F → F → AdaptiveOptimalStrategy F
  record_fill s qty =
      let remaining = s.remaining_notional ⊖ qty in
      let over = remaining ≤? lit 1 8 in
      record s {
        remaining_notional = if over then nought else remaining;
        completed = if over then true else s.completed;
      }

  unfoldable pub on_tick :
      OrderIds
      → AdaptiveOptimalStrategy F
      → MarketState F
      → OrderIds × AdaptiveOptimalStrategy F × List (Order F)
  unfolding compute_chunk fetch_add
  on_tick ids s market =
      let chunk =
        compute_chunk s market.volatility market.liquidity s.remaining_notional
          (s.initial_horizon - s.current_step) in
      let s' = record s { current_step = s.current_step + 1 } in
      if s.completed
      then (ids, s, [])
      else if lit 1 10 <? chunk
      then (
        record ids { adaptive = fetch_add ids.adaptive },
        s',
        market_sell ids.adaptive "AdaptiveOptimal" chunk ∷ [],
      )
      else (ids, s', [])

  unfoldable pub on_event :
      OrderIds
      → AdaptiveOptimalStrategy F
      → SimEvent F
      → MarketState F
      → OrderIds × AdaptiveOptimalStrategy F × List (Order F)
  unfolding on_tick record_fill
  on_event ids s (time_tick _) market = on_tick ids s market
  on_event ids s (order_filled _ qty _ _) market = (ids, record_fill s qty, [])
  on_event ids s (partial_fill _ filled _ _) market = (ids, record_fill s filled, [])
  on_event ids s _ market = (ids, s, [])
