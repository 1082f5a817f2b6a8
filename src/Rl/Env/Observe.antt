-- ===== src/Rl/Env/Observe.antt =====
-- src/bin/rl_env/env/state.rs: the market's advance, the volatility estimate, the regime signals and
-- the observation.
use strata_exec.Prelude.{
  ℕ, zero, suc, ◌+◌, ◌-◌, ◌%◌, ◌&&◌, Option, none, some, List, [], ◌∷◌, ◌++◌, map, length,
  get_elem?, ltb, leb, if◌then◌else◌,
}
use strata_exec.Float.{Float, ◌⊕◌, ◌⊖◌, ◌⊗◌, ◌⊘◌, ◌<?◌, lit, nought, one, fmax, fabs, clamp, fsum}
use strata_exec.Market.OrderBook.{
  OrderBook, mid_price, half_spread, bid_depth_up_to, rescale_full, unwrap_or,
}
use strata_exec.Market.Adversarial.{trim_front}
use strata_exec.Market.Simulators.{Rng, GarchSimulator, step, volatility}
use strata_exec.Market.LobReplay.{LobReplay, next_snapshot}
use strata_exec.Market.CounterfactualLob.{
  CounterfactualLob, permanent_impact, temporary_impact_total,
}
use strata_exec.Rl.Config.{RlMode, synthetic, historical, counterfactual}
use strata_exec.Rl.Env.{RlEnv, synthetic_book, apply_adversarial_deficit}

pub data VolLabel : Type 0 where
  high_vol low_vol normal_vol : VolLabel

pub data SpreadLabel : Type 0 where
  wide tight normal_spread : SpreadLabel

abbrev pub max_one : ℕ → ℕ
max_one zero = 1
max_one (suc n) = suc n

abbrev pub book_time : {F : Type 0} → Option (OrderBook F) → ℕ
book_time none = 0
book_time (some b) = b.timestamp

module _ {F : Type 0} ⦃f : Float F⦄ where
  abbrev pub mid_or : Option (OrderBook F) → F → F
  mid_or none d = d
  mid_or (some b) d = unwrap_or (mid_price b) d

  abbrev pub half_spread_or : Option (OrderBook F) → F → F
  half_spread_or none d = d
  half_spread_or (some b) d = unwrap_or (half_spread b) d

  abbrev pub last_or : List F → F → F
  last_or [] d = d
  last_or (x ∷ []) d = x
  last_or (x ∷ y ∷ ys) d = last_or (y ∷ ys) d

  -- 2880 steps of 365 days.
  abbrev pub trading_steps_per_year : F
  trading_steps_per_year = f.of_usize 2880 ⊗ lit 365 0

  unfoldable pub spread_of_returns : List F → F
  unfolding fsum
  spread_of_returns rs =
      let n = f.of_usize (length rs) in
      let mean = fsum rs ⊘ n in
      f.sqrt (fsum (map (λ r. (r ⊖ mean) ⊗ (r ⊖ mean)) rs) ⊘ n) ⊗ f.sqrt trading_steps_per_year

  -- The relative move over the last ten prices.
  unfoldable pub drift : List F → F
  unfolding fabs
  drift history =
      let then_ = unwrap_or (get_elem? history (length history - 11)) nought in
      if leb 11 (length history) && lit 1 12 <? fabs then_
      then (last_or history nought ⊖ then_) ⊘ then_
      else nought

  abbrev pub impact_features : Option (CounterfactualLob F) → List F
  impact_features none = nought ∷ nought ∷ []
  impact_features (some cf) =
      f.tanh (permanent_impact cf ⊘ lit 1 2) ∷ f.tanh (temporary_impact_total cf ⊘ lit 1 2) ∷ []

  abbrev pub depth_near : Option (OrderBook F) → F → F
  depth_near none mid = nought
  depth_near (some b) mid = bid_depth_up_to b (mid ⊗ lit 99 2)

module _ {F G : Type 0} ⦃f : Float F⦄ where
  unfoldable pub interval_volume_at_step : RlEnv F G → F
  interval_volume_at_step e =
      unwrap_or (get_elem? e.volume_series (e.ofi_start + e.step_idx)) nought

  unfoldable pub push_return : RlEnv F G → F → RlEnv F G
  unfolding trim_front
  push_return e r =
      if f.is_finite r
      then record e { return_buffer = trim_front 50 (e.return_buffer ++ r ∷ []) }
      else e

  unfoldable pub realised_vol : RlEnv F G → F
  unfolding spread_of_returns
  realised_vol e =
      if ltb (length e.return_buffer) 5 then e.cfg.sigma_ref else spread_of_returns e.return_buffer

  abbrev pub push_price : RlEnv F G → F → RlEnv F G
  push_price e price = record e { price_history = e.price_history ++ price ∷ [] }

  unfoldable pub trim_history : RlEnv F G → RlEnv F G
  unfolding trim_front
  trim_history e = record e { price_history = trim_front 16 e.price_history }

  -- The return from the environment's mid to a new one.
  abbrev pub log_return : RlEnv F G → F → F
  log_return e price = f.ln (price ⊘ fmax e.current_mid (lit 1 12))

  abbrev pub quantity_factor : RlEnv F G → F
  quantity_factor e = one ⊘ fmax (e.cfg.btc_target ⊘ e.cfg.total_inventory) (lit 1 12)

  -- A snapshot taken from the recorded book.
  unfoldable pub take_snapshot : RlEnv F G → Option (OrderBook F) → RlEnv F G
  unfolding fmax mid_price push_return apply_adversarial_deficit rescale_full realised_vol
  take_snapshot e none = e
  take_snapshot e (some book) =
      let new_raw_mid = unwrap_or (mid_price book) e.current_mid in
      let returned = push_return e (log_return e new_raw_mid) in
      let thinned = apply_adversarial_deficit book e.adversarial in
      push_price
        (record returned {
          current_mid = new_raw_mid;
          current_book = some (rescale_full thinned e.price_factor (quantity_factor e));
          current_sigma = realised_vol returned;
        })
        new_raw_mid

  unfoldable pub advance_historical : RlEnv F G → Option (LobReplay F) → RlEnv F G
  unfolding next_snapshot take_snapshot
  advance_historical e none = e
  advance_historical e (some replay) =
      let next = next_snapshot replay in
      take_snapshot (record e { lob_replay = some next.1 }) next.0

  module _ (draws : Rng F G) where
    unfoldable pub advance_synthetic : RlEnv F G → Option (GarchSimulator F G) → RlEnv F G
    unfolding step volatility fmax push_return synthetic_book apply_adversarial_deficit
    advance_synthetic e none = e
    advance_synthetic e (some sim) =
        let stepped = step draws sim in
        let sigma = volatility draws stepped.1 in
        let returned = push_return e (log_return e stepped.0) in
        push_price
          (record returned {
            sim = some stepped.1;
            current_mid = stepped.0;
            current_sigma = sigma;
            current_book = some (
                apply_adversarial_deficit (synthetic_book stepped.0 sigma e.cfg.total_inventory)
                  e.adversarial);
          })
          stepped.0

    unfoldable pub advance_in : RlMode → RlEnv F G → RlEnv F G
    unfolding advance_synthetic advance_historical trim_history
    advance_in counterfactual e = e
    advance_in synthetic e = trim_history (advance_synthetic e e.sim)
    advance_in historical e = trim_history (advance_historical e e.lob_replay)

    unfoldable pub advance_market : RlEnv F G → RlEnv F G
    unfolding advance_in
    advance_market e = advance_in e.cfg.mode e

  unfoldable pub regime_dims : RlEnv F G → F × F
  unfolding fmax half_spread
  regime_dims e =
      let sigma_ref = fmax e.cfg.sigma_ref (lit 1 9) in
      let vol_ratio = fmax (fmax e.current_sigma (lit 1 9) ⊘ sigma_ref) (lit 1 9) in
      let spread_ref = fmax e.spread_ref (lit 1 9) in
      let half_spread = half_spread_or e.current_book spread_ref in
      let liq_ratio = fmax (fmax half_spread (lit 1 9) ⊘ spread_ref) (lit 1 9) in
      (f.tanh (f.ln vol_ratio), f.tanh (f.ln liq_ratio))

  unfoldable pub regime_label : RlEnv F G → VolLabel × SpreadLabel
  unfolding half_spread
  regime_label e =
      let half_spread = half_spread_or e.current_book e.spread_ref in
      (
        if e.cfg.sigma_ref ⊗ lit 15 1 <? e.current_sigma
            then high_vol
            else if e.current_sigma <? e.cfg.sigma_ref ⊗ lit 5 1
            then low_vol
            else normal_vol,
        if e.spread_ref ⊗ lit 15 1 <? half_spread
            then wide
            else if half_spread <? e.spread_ref ⊗ lit 5 1
            then tight
            else normal_spread,
      )

  unfoldable pub time_features : RlEnv F G → List F
  unfolding fmax
  time_features e =
      let seconds = f.of_usize (book_time e.current_book % 86_400_000) ⊘ lit 1000 0 in
      let time_of_day = seconds ⊘ lit 86400 0 in
      let ratio = e.current_sigma ⊘ (fmax e.cfg.sigma_ref (lit 1 9) ⊕ lit 1 10) in
      let angle = lit 2 0 ⊗ lit 3141592653589793 15 ⊗ time_of_day in
      time_of_day ∷ f.tanh (ratio ⊖ one) ∷ f.sin angle ∷ f.cos angle ∷ []

  unfoldable pub build_state : RlEnv F G → List F
  unfolding fmax clamp half_spread mid_price bid_depth_up_to drift regime_dims time_features
      permanent_impact temporary_impact_total
  build_state e =
      let mid = fmax (mid_or e.current_book e.current_mid) (lit 1 12) in
      let total_inv = fmax e.cfg.total_inventory one in
      let sigma_ref = fmax e.cfg.sigma_ref (lit 1 9) in
      let spread_ref = fmax e.spread_ref (lit 1 9) in
      let steps_remaining = f.of_usize (e.cfg.total_steps - e.step_idx) in
      let regimes = regime_dims e in
      (clamp (e.remaining ⊘ total_inv) nought one
        ∷ clamp (steps_remaining ⊘ f.of_usize (max_one e.cfg.total_steps)) nought one
        ∷ f.tanh (e.current_sigma ⊘ sigma_ref)
        ∷ f.tanh (half_spread_or e.current_book e.spread_ref ⊘ spread_ref)
        ∷ f.tanh (depth_near e.current_book mid ⊘ fmax e.depth_ref one)
        ∷ unwrap_or (get_elem? e.ofi_series (e.ofi_start + e.step_idx)) nought
        ∷ f.tanh (drift e.price_history ⊘ sigma_ref)
        ∷ f.tanh (e.last_slippage ⊘ spread_ref)
        ∷ [])
      ++ impact_features e.cf_lob
      ++ (regimes.0 ∷ regimes.1 ∷ [])
      ++ (if e.cfg.no_time_features then [] else time_features e)
