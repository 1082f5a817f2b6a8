-- ===== src/Rl/Env.antt =====
-- src/bin/rl_env/env/mod.rs: the state of one environment, and its construction.
pub mod Observe
pub mod Fills
pub mod Step
pub mod Reset
use strata_exec.Prelude.{
  ℕ, Bool, true, false, ◌&&◌, Option, none, some, List, [], ◌∷◌, if◌then◌else◌,
}
use strata_exec.Float.{Float, ◌⊘◌, ◌≤?◌, lit, nought, one, fmax}
use strata_exec.Market.OrderBook.{OrderBook}
use strata_exec.Market.Adversarial.{
  LiquidityWithdrawer, FrontRunner, new_withdrawer, new_front_runner, deduct_all,
}
use strata_exec.Market.LobGenerator.{LobGeneratorParams, default_params, generate_lob}
use strata_exec.Market.Simulators.{GarchSimulator}
use strata_exec.Market.LobReplay.{LobReplay}
use strata_exec.Market.CounterfactualLob.{CounterfactualLob}
use strata_exec.Rl.Config.{EnvConfig, synthetic_num_levels}

pub record AdversarialState (F : Type 0) : Type 0 where
  pub withdrawer : LiquidityWithdrawer F
  pub front_runner : FrontRunner F
  pub last_front_runner_qty : F
  pub last_depth_withdrawn : F
  pub last_pre_fill_depth : F

-- The fields of `RlEnv`, without `market_cache`, which the environments of a batch share, and the
-- loaded trades, of which only the two series are read again. `G` is the state of the generator.
pub record RlEnv (F G : Type 0) : Type 0 where
  pub cfg : EnvConfig F
  pub sim : Option (GarchSimulator F G)
  pub lob_replay : Option (LobReplay F)
  pub current_book : Option (OrderBook F)
  pub current_mid : F
  pub arrival_price : F
  pub spread_ref : F
  pub depth_ref : F
  pub price_factor : F
  pub step_idx : ℕ
  pub remaining : F
  pub price_history : List F
  pub last_slippage : F
  pub current_sigma : F
  pub total_notional_received : F
  pub total_filled : F
  pub return_buffer : List F
  pub adversarial : Option (AdversarialState F)
  pub cf_lob : Option (CounterfactualLob F)
  pub day_mids : List F
  pub pending_baseline : F
  pub ofi_series : List F
  pub ofi_start : ℕ
  pub volume_series : List F
  pub base_total_steps : ℕ
  pub start_frac : Option F
  pub episode_start : Option (ℕ × ℕ)
  pub base_total_inventory : F
  pub episode_size_fraction : F

module _ {F : Type 0} ⦃f : Float F⦄ where
  unfoldable pub synthetic_book : F → F → F → OrderBook F
  unfolding default_params generate_lob fmax
  synthetic_book mid sigma total_inventory = generate_lob mid sigma (record default_params {
    num_levels = synthetic_num_levels;
    base_quantity = fmax (total_inventory ⊘ lit 5 0) (lit 1000 0);
  })

  -- `iter().all(|d| *d <= 0.0)`
  abbrev pub all_restored : List F → Bool
  all_restored [] = true
  all_restored (d ∷ ds) = (d ≤? nought) && all_restored ds

  unfoldable pub apply_adversarial_deficit : OrderBook F → Option (AdversarialState F) → OrderBook F
  unfolding deduct_all
  apply_adversarial_deficit book none = book
  apply_adversarial_deficit book (some adv) =
      let deficits = adv.withdrawer.withdrawn_depth_per_level in
      if all_restored deficits then book else record book { bids = deduct_all book.bids deficits }

  abbrev pub new_adversarial_state : AdversarialState F
  new_adversarial_state = record {
    withdrawer = new_withdrawer;
    front_runner = new_front_runner;
    last_front_runner_qty = nought;
    last_depth_withdrawn = nought;
    last_pre_fill_depth = nought;
  }

  unfoldable pub new_env : {G : Type 0} → EnvConfig F → RlEnv F G
  unfolding new_withdrawer new_front_runner
  new_env cfg = record {
    cfg = cfg;
    sim = none;
    lob_replay = none;
    current_book = none;
    current_mid = nought;
    arrival_price = nought;
    spread_ref = one;
    depth_ref = one;
    price_factor = one;
    step_idx = 0;
    remaining = nought;
    price_history = [];
    last_slippage = nought;
    current_sigma = lit 20 2;
    total_notional_received = nought;
    total_filled = nought;
    return_buffer = [];
    adversarial = if cfg.adversarial then some new_adversarial_state else none;
    cf_lob = none;
    day_mids = [];
    pending_baseline = nought;
    ofi_series = [];
    ofi_start = 0;
    volume_series = [];
    base_total_steps = cfg.total_steps;
    start_frac = none;
    episode_start = none;
    base_total_inventory = cfg.total_inventory;
    episode_size_fraction = one;
  }
