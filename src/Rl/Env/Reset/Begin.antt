-- ===== src/Rl/Env/Reset/Begin.antt =====
-- src/bin/rl_env/env/reset.rs: `reset_at`.
use strata_exec.Prelude.{ℕ, Bool, true, false, ◌&&◌, not, Option, none, some, [], if◌then◌else◌}
use strata_exec.Float.{Float, ◌⊗◌, lit, nought, one, fmax}
use strata_exec.Market.OrderBook.{unwrap_or}
use strata_exec.Market.Simulators.{Rng}
use strata_exec.Rl.Config.{
  RlMode, synthetic, historical, counterfactual, is_replay, random_horizon_min, random_horizon_max,
}
use strata_exec.Rl.Cache.{Files, MarketDataCache}
use strata_exec.Rl.Env.{RlEnv}
use strata_exec.Rl.Env.Observe.{build_state}
use strata_exec.Rl.Env.Step.{StepResult}
use strata_exec.Market.Adversarial.{repeat}
use strata_exec.Rl.Env.Reset.{EnvError, Loading, reset_synthetic, is_none}
use strata_exec.Rl.Env.Reset.Recorded.{reset_historical, reset_counterfactual}

-- What the caller of a reset is given.
pub record ResetResult (F : Type 0) : Type 0 where
  pub result : StepResult F
  pub error : Option EnvError

-- The length of an observation.
abbrev pub n_dims : Bool → ℕ
n_dims no_time_features = if no_time_features then 12 else 16

module _ {F G : Type 0} ⦃f : Float F⦄ where
  unfoldable pub report : RlEnv F G → Option EnvError → ResetResult F
  unfolding build_state
  report e none = record {
    result = record { state = build_state e; reward = nought; done = false; summary = none };
    error = none;
  }
  report e (some error) = record {
    result = record {
      state = repeat (n_dims e.cfg.no_time_features) nought;
      reward = f.neg one;
      done = true;
      summary = none;
    };
    error = some error;
  }

module _ {F G : Type 0} ⦃f : Float F⦄ (draws : Rng F G) where
  -- The horizon of the episode and the generator after its draw.
  unfoldable pub draw_steps : RlEnv F G → G → ℕ × G
  draw_steps e g =
      if not e.cfg.fixed_steps && is_none e.cfg.episode_steps
      then draws.range_usize random_horizon_min random_horizon_max g
      else (e.cfg.total_steps, g)

  abbrev pub with_size : RlEnv F G → F → RlEnv F G
  with_size e size = record e {
    episode_size_fraction = size;
    cfg = record e.cfg { total_inventory = fmax (e.base_total_inventory ⊗ size) one };
  }

  -- The random horizon and size of an episode on recorded data.
  unfoldable pub randomise : RlEnv F G → ℕ → RlEnv F G
  unfolding draw_steps fmax
  randomise e seed =
      let steps = draw_steps e (draws.seed_from_u64 seed) in
      let sized : RlEnv F G = record e { cfg = record e.cfg { total_steps = steps.0 } } in
      if not (is_replay e.cfg.mode)
      then e
      else if e.cfg.fixed_size
      then sized
      else with_size sized (draws.range_f64 (lit 1 1) (lit 10 1) steps.1).0

  -- The configured values of the episode, restored from those of the construction.
  unfoldable pub restore : RlEnv F G → Option F → RlEnv F G
  restore e start_frac = record e {
    start_frac = start_frac;
    episode_start = none;
    cfg = record e.cfg {
      total_steps = e.base_total_steps;
      total_inventory = e.base_total_inventory;
    };
    episode_size_fraction = one;
  }

  unfoldable pub clear : RlEnv F G → RlEnv F G
  clear e = record e {
    step_idx = 0;
    remaining = e.cfg.total_inventory;
    price_history = [];
    return_buffer = [];
    last_slippage = nought;
    total_notional_received = nought;
    total_filled = nought;
    current_sigma = e.cfg.sigma_ref;
    pending_baseline = nought;
  }

  unfoldable pub reset_in : Files F → RlMode → MarketDataCache F → RlEnv F G → ℕ → Loading F G
  unfolding reset_synthetic reset_historical reset_counterfactual
  reset_in files synthetic c e seed = record {
    cache = c;
    env = reset_synthetic draws e seed;
    outcome = none;
  }
  reset_in files historical c e seed = reset_historical draws files c e seed
  reset_in files counterfactual c e seed = reset_counterfactual draws files c e seed

  unfoldable pub reset_at :
      Files F
      → MarketDataCache F
      → RlEnv F G
      → Option ℕ
      → Option F
      → MarketDataCache F × RlEnv F G × ResetResult F
  unfolding restore randomise clear reset_in report
  reset_at files c e seed_override start_frac =
      let seed = unwrap_or seed_override e.cfg.seed in
      let cleared = clear (randomise (restore e start_frac) seed) in
      let loaded = reset_in files cleared.cfg.mode c cleared seed in
      (loaded.cache, loaded.env, report loaded.env loaded.outcome)
