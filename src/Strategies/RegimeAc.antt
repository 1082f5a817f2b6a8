-- ===== src/Strategies/RegimeAc.antt =====
-- src/strategies/regime_ac.rs: the Almgren-Chriss rule with an urgency that follows the regime.
pub mod Horizon
use Prim.Native.Nat.{max}
use Prim.Native.String.{String}
use strata_exec.Prelude.{
  ℕ, ◌+◌, ◌-◌, Bool, true, false, not, ◌||◌, Option, none, some, List, [], ◌∷◌, ◌++◌, ◌==◌, leb,
  if◌then◌else◌, length,
}
use strata_exec.Float.{Float, ◌⊖◌, ◌⊗◌, ◌⊘◌, ◌<?◌, ◌≤?◌, lit, nought, fmin, fmax, fabs, fsum}
use strata_exec.Market.Regime.{VolRegime, LiqRegime, MarketRegime, classify, label}

pub record RegimeAcParams (F : Type 0) : Type 0 where
  pub lambda_low_vol_deep : F
  pub lambda_normal : F
  pub lambda_high_vol : F
  pub lambda_thin_liq : F
  pub lambda_high_vol_thin : F

pub record RegimeAcStrategy (F : Type 0) : Type 0 where
  pub params : RegimeAcParams F
  pub remaining : F
  pub horizon : ℕ
  pub steps_taken : ℕ
  pub eta : F
  pub sigma_ref : F
  pub spread_ref : F
  pub current_regime : Option MarketRegime
  pub regime_history : List String
  pub warmup_steps : ℕ
  pub warmed_up : Bool
  pub sigma_warmup : List F
  pub spread_warmup : List F

-- The `match` of `effective_lambda`, first arm first.
unfoldable pub lambda_for : {F : Type 0} → VolRegime → LiqRegime → RegimeAcParams F → F
lambda_for VolRegime.low LiqRegime.deep params = params.lambda_low_vol_deep
lambda_for VolRegime.high LiqRegime.thin params = params.lambda_high_vol_thin
lambda_for VolRegime.high _ params = params.lambda_high_vol
lambda_for _ LiqRegime.thin params = params.lambda_thin_liq
lambda_for _ _ params = params.lambda_normal

unfoldable pub effective_lambda : {F : Type 0} → MarketRegime → RegimeAcParams F → F
unfolding lambda_for
effective_lambda regime params = lambda_for regime.vol regime.liq params

module _ {F : Type 0} ⦃f : Float F⦄ where
  abbrev pub default_params : RegimeAcParams F
  default_params = record {
    lambda_low_vol_deep = lit 1 4;
    lambda_normal = lit 1 4;
    lambda_high_vol = lit 1 2;
    lambda_thin_liq = lit 1 2;
    lambda_high_vol_thin = lit 5 2;
  }

  unfoldable pub new_regime_ac : F → ℕ → F → F → F → RegimeAcStrategy F
  new_regime_ac total_inventory horizon eta sigma_ref spread_ref = record {
    params = default_params;
    remaining = total_inventory;
    horizon = horizon;
    steps_taken = 0;
    eta = eta;
    sigma_ref = sigma_ref;
    spread_ref = spread_ref;
    current_regime = none;
    regime_history = [];
    warmup_steps = 50;
    warmed_up = false;
    sigma_warmup = [];
    spread_warmup = [];
  }

  unfoldable with_params : RegimeAcStrategy F → RegimeAcParams F → RegimeAcStrategy F
  with_params s params = record s { params = params }

  unfoldable pub is_complete : RegimeAcStrategy F → Bool
  is_complete s = s.remaining ≤? lit 1 8

  abbrev pub remaining_horizon : RegimeAcStrategy F → ℕ
  remaining_horizon s = max (s.horizon - s.steps_taken) 1

  -- `trade_qty` of both phases, for the urgency and the volatility at hand.
  unfoldable pub trade_qty : RegimeAcStrategy F → F → F → F
  unfolding fabs
  trade_qty s lambda sigma =
      let kappa = if lit 1 15 <? s.eta then f.sqrt (lambda ⊗ sigma ⊗ sigma ⊘ s.eta) else nought in
      let rh = f.of_usize (remaining_horizon s) in
      let sinh_denom = f.sinh (kappa ⊗ rh) in
      if kappa ⊗ rh <? lit 1 6
      then s.remaining ⊘ rh
      else if not (f.is_finite sinh_denom) || fabs sinh_denom <? lit 1 15
      then s.remaining ⊘ rh
      else s.remaining ⊗ kappa ⊘ sinh_denom

  -- The last step sweeps up the residue; the others are clamped to what remains.
  unfoldable pub final_qty : RegimeAcStrategy F → F → F
  unfolding fmin fmax
  final_qty s trade =
      if remaining_horizon s == 1 then s.remaining else fmax (fmin trade s.remaining) nought

  -- The steps counted and the inventory taken off, as both phases end.
  unfoldable pub settle : RegimeAcStrategy F → F → RegimeAcStrategy F × F
  settle s qty =
      let left = s.remaining ⊖ qty in
      (
        record s {
          steps_taken = s.steps_taken + 1;
          remaining = if left ≤? lit 1 8 then nought else left;
        },
        qty,
      )

  unfoldable pub compute_baseline_trade : RegimeAcStrategy F → F → RegimeAcStrategy F × F
  unfolding settle final_qty trade_qty
  compute_baseline_trade s sigma =
      let sigma_for_kappa = if lit 1 15 <? sigma then sigma else s.sigma_ref in
      settle s (final_qty s (trade_qty s s.params.lambda_normal sigma_for_kappa))

  abbrev pub mean : List F → F
  mean xs = fsum xs ⊘ f.of_usize (length xs)

  -- The observations of a warm-up step, and the calibration on the last of them.
  unfoldable pub observe : RegimeAcStrategy F → F → F → RegimeAcStrategy F
  unfolding fsum
  observe s sigma half_spread =
      let sigmas = s.sigma_warmup ++ sigma ∷ [] in
      let spreads =
        if lit 1 15 <? half_spread then s.spread_warmup ++ half_spread ∷ [] else s.spread_warmup in
      let ready = leb s.warmup_steps (length sigmas) in
      record s {
        sigma_warmup = sigmas;
        spread_warmup = spreads;
        sigma_ref = if ready then mean sigmas else s.sigma_ref;
        spread_ref =
            if ready
            then (elim spreads [ [] ↦ s.spread_ref | x ∷ xs ↦ mean (x ∷ xs) ])
            else s.spread_ref;
        warmed_up = if ready then true else s.warmed_up;
        regime_history = s.regime_history ++ "warmup" ∷ [];
      }

  unfoldable pub active_step : RegimeAcStrategy F → F → F → RegimeAcStrategy F × F
  unfolding settle final_qty trade_qty effective_lambda classify
  active_step s sigma half_spread =
      let regime = classify sigma s.sigma_ref half_spread s.spread_ref in
      let qty = final_qty s (trade_qty s (effective_lambda regime s.params) sigma) in
      settle
        (record s {
          regime_history = s.regime_history ++ label regime ∷ [];
          current_regime = some regime;
        })
        qty

  unfoldable pub on_block : RegimeAcStrategy F → F → F → RegimeAcStrategy F × F
  unfolding is_complete observe compute_baseline_trade active_step
  on_block s sigma half_spread =
      if is_complete s
      then (s, nought)
      else if s.warmed_up
      then active_step s sigma half_spread
      else compute_baseline_trade (observe s sigma half_spread) sigma
