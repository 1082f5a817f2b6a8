-- ===== src/Rl/Config.antt =====
-- src/bin/rl_env/config.rs: the environment's configuration, and the parser of its arguments.
pub mod Parse
pub mod Rules
use strata_exec.Prelude.{ℕ, Bool, true, false, Option, none, some, List, [], ◌∷◌}
use strata_exec.Prelude.Text.{Text}
use strata_exec.Float.{Float, lit}

pub data RlMode : Type 0 where
  synthetic historical counterfactual : RlMode

pub data RewardBaseline : Type 0 where
  mid twap : RewardBaseline

pub record EnvConfig (F : Type 0) : Type 0 where
  pub mode : RlMode
  pub total_inventory : F
  pub total_steps : ℕ
  pub seed : ℕ
  pub sigma_ref : F
  pub gamma : F
  pub adversarial : Bool
  pub lob_data_path : Option Text
  pub btc_target : F
  pub adv_btc : F
  pub agg_trades_path : Option Text
  pub fixed_steps : Bool
  pub fixed_size : Bool
  pub no_time_features : Bool
  pub episode_steps : Option ℕ
  pub reward_baseline : RewardBaseline

abbrev pub default_total_steps : ℕ
default_total_steps = 2880

abbrev pub historical_default_steps : ℕ
historical_default_steps = 2880

abbrev pub depth_ref_samples : ℕ
depth_ref_samples = 50

abbrev pub random_horizon_min : ℕ
random_horizon_min = 200

abbrev pub random_horizon_max : ℕ
random_horizon_max = 1440

abbrev pub synthetic_num_levels : ℕ
synthetic_num_levels = 20

-- `matches!(mode, Historical | Counterfactual)`
abbrev pub is_replay : RlMode → Bool
is_replay synthetic = false
is_replay historical = true
is_replay counterfactual = true

abbrev pub is_synthetic : RlMode → Bool
is_synthetic synthetic = true
is_synthetic historical = false
is_synthetic counterfactual = false

abbrev pub is_counterfactual : RlMode → Bool
is_counterfactual synthetic = false
is_counterfactual historical = false
is_counterfactual counterfactual = true

abbrev pub is_twap : RewardBaseline → Bool
is_twap mid = false
is_twap twap = true

module _ {F : Type 0} ⦃f : Float F⦄ where
  abbrev pub calibrated_sigma_ref : F
  calibrated_sigma_ref = lit 4999 4

  unfoldable pub action_fractions : List F
  action_fractions =
      lit 0 0
      ∷ lit 1 3
      ∷ lit 3 3
      ∷ lit 5 3
      ∷ lit 8 3
      ∷ lit 10 3
      ∷ lit 15 3
      ∷ lit 20 3
      ∷ lit 30 3
      ∷ lit 50 3
      ∷ lit 70 3
      ∷ lit 100 3
      ∷ lit 150 3
      ∷ lit 200 3
      ∷ lit 300 3
      ∷ lit 400 3
      ∷ lit 500 3
      ∷ lit 700 3
      ∷ lit 900 3
      ∷ lit 1000 3
      ∷ []

  unfoldable pub default_config : EnvConfig F
  default_config = record {
    mode = synthetic;
    total_inventory = lit 1000000 0;
    total_steps = default_total_steps;
    seed = 42;
    sigma_ref = lit 20 2;
    gamma = lit 5 3;
    adversarial = false;
    lob_data_path = none;
    btc_target = lit 500 0;
    adv_btc = lit 0 0;
    agg_trades_path = none;
    fixed_steps = false;
    fixed_size = false;
    no_time_features = false;
    episode_steps = none;
    reward_baseline = mid;
  }
