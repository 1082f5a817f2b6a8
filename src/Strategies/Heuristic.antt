-- ===== src/Strategies/Heuristic.antt =====
-- src/strategies/heuristic.rs: chunks scaled by liquidity and by smoothed volatility.
pub mod Seller
use strata_exec.Prelude.{Bool, true, false, List, [], ◌∷◌, if◌then◌else◌}
use strata_exec.Float.{Float, ◌⊕◌, ◌⊖◌, ◌⊗◌, ◌⊘◌, ◌<?◌, ◌≤?◌, lit, nought, fmin, fmax, clamp}
use strata_exec.Events.{Order, market_sell, SimEvent, time_tick, order_filled, partial_fill}
use strata_exec.Market.{MarketState, LiquiditySnapshot, depth_metric}
use strata_exec.Strategies.Ids.{OrderIds, fetch_add}

pub record HeuristicStrategy (F : Type 0) : Type 0 where
  pub base_chunk : F
  pub sigma_ref : F
  pub liquidity_ref : F
  pub alpha : F
  pub beta : F
  pub remaining_notional : F
  pub completed : Bool
  pub sigma_ema : F

module _ {F : Type 0} ⦃f : Float F⦄ where
  unfoldable pub new_heuristic : F → F → F → F → HeuristicStrategy F
  new_heuristic base_chunk sigma_ref liquidity_ref total_notional = record {
    base_chunk = base_chunk;
    sigma_ref = sigma_ref;
    liquidity_ref = liquidity_ref;
    alpha = lit 1 2;
    beta = lit 5 3;
    remaining_notional = total_notional;
    completed = false;
    sigma_ema = sigma_ref;
  }

  unfoldable pub predict_slippage : HeuristicStrategy F → F → F → F → F
  unfolding fmax
  predict_slippage s chunk liq volatility =
      s.alpha ⊗ (chunk ⊘ fmax liq (lit 1 8)) ⊕ s.beta ⊗ volatility

  unfoldable pub compute_chunk :
      HeuristicStrategy F → F → LiquiditySnapshot F → F → HeuristicStrategy F × F
  unfolding clamp fmin fmax
  compute_chunk s volatility liquidity remaining_notional =
      let sigma_ema = lit 95 2 ⊗ s.sigma_ema ⊕ lit 5 2 ⊗ volatility in
      let liq = depth_metric liquidity in
      let liquidity_factor = clamp (liq ⊘ s.liquidity_ref) (lit 25 2) (lit 2 0) in
      let volatility_factor = clamp (sigma_ema ⊘ fmax volatility (lit 1 8)) (lit 25 2) (lit 2 0) in
      let adaptive_chunk = s.base_chunk ⊗ liquidity_factor ⊗ volatility_factor in
      (record s { sigma_ema = sigma_ema }, fmin adaptive_chunk remaining_notional)

  unfoldable pub record_fill : HeuristicStrategy F → F → HeuristicStrategy F
  record_fill s qty =
      let remaining = s.remaining_notional ⊖ qty in
      let over = remaining ≤? lit 1 8 in
      record s {
        remaining_notional = if over then nought else remaining;
        completed = if over then true else s.completed;
      }

  unfoldable pub on_tick :
      OrderIds
      → HeuristicStrategy F
      → MarketState F
      → OrderIds × HeuristicStrategy F × List (Order F)
  unfolding compute_chunk fetch_add
  on_tick ids s market =
      let (s', chunk) = compute_chunk s market.volatility market.liquidity s.remaining_notional in
      if s.completed
      then (ids, s, [])
      else if lit 1 10 <? chunk
      then (
        record ids { heuristic = fetch_add ids.heuristic },
        s',
        market_sell ids.heuristic "Heuristic" chunk ∷ [],
      )
      else (ids, s', [])

  unfoldable pub on_event :
      OrderIds
      → HeuristicStrategy F
      → SimEvent F
      → MarketState F
      → OrderIds × HeuristicStrategy F × List (Order F)
  unfolding on_tick record_fill
  on_event ids s (time_tick _) market = on_tick ids s market
  on_event ids s (order_filled _ qty _ _) market = (ids, record_fill s qty, [])
  on_event ids s (partial_fill _ filled _ _) market = (ids, record_fill s filled, [])
  on_event ids s _ market = (ids, s, [])
