-- ===== src/Rl/Env/Reset.antt =====
-- src/bin/rl_env/env/reset.rs: where an episode starts, and the start in synthetic mode. What is printed
-- and the report's diagnostics are not modelled.
pub mod Recorded
pub mod Begin
pub mod Starts
pub mod Dims
use Prim.Native.Nat.{bit_xor}
use strata_exec.Prelude.{
  ℕ, zero, suc, ◌+◌, ◌-◌, ◌/◌, ◌%◌, Bool, true, false, ◌&&◌, ◌||◌, not, Option, none, some, List,
  [], ◌∷◌, map, length, get_elem?, leb, ◌==◌, Result, ok, err, if◌then◌else◌,
}
use strata_exec.Prelude.Text.{Text}
use strata_exec.Float.{Float, ◌⊕◌, ◌⊖◌, ◌⊗◌, ◌⊘◌, ◌<?◌, ◌≤?◌, lit, nought, one, fmax, fsum}
use strata_exec.Market.OrderBook.{
  OrderBook, mid_price, half_spread, bid_depth_up_to, rescale_full, unwrap_or,
}
use strata_exec.Market.LobGenerator.{from_index}
use strata_exec.Market.Simulators.{Rng, new_garch}
use strata_exec.Market.LobReplay.{
  LobSnapshot, LobReplay, next_snapshot, seek, len, snapshot_timestamps, snapshot_mid, min,
}
use strata_exec.Market.LobReplay.Cells.{ParseError}
use strata_exec.Market.AggTrades.{AggTradesDay, build_ofi_series, build_volume_series, slice}
use strata_exec.Market.CounterfactualLob.{
  CounterfactualLob, CounterfactualLobConfig, calibrated, new_lob, set_btc_scale,
}
use strata_exec.Rl.Config.{
  RlMode, synthetic, historical, counterfactual, EnvConfig, is_replay, is_twap, default_total_steps,
  historical_default_steps, depth_ref_samples, random_horizon_min, random_horizon_max,
}
use strata_exec.Rl.Cache.{Files, MarketDataCache, load_lob, load_agg}
use strata_exec.Rl.Env.{RlEnv, synthetic_book}
use strata_exec.Rl.Env.Observe.{mid_or, half_spread_or, push_price, max_one, build_state}
use strata_exec.Rl.Env.Step.{StepResult}

pub data EnvError : Type 0 where
  unreadable_data : ParseError → EnvError
  lob_data_required start_needs_steps day_too_short start_out_of_range no_snapshot : EnvError

-- An environment with the cache it shares, and how far the reset came.
pub record Loading (F G : Type 0) : Type 0 where
  pub cache : MarketDataCache F
  pub env : RlEnv F G
  pub outcome : Option EnvError

-- "START_V3"
abbrev pub start_seed_salt : ℕ
start_seed_salt = 6_004_496_025_050_371_635

abbrev pub checked_sub : ℕ → ℕ → Option ℕ
checked_sub a b = if leb b a then some (a - b) else none

abbrev pub is_default_steps : ℕ → Bool
is_default_steps n = n == default_total_steps || n == historical_default_steps

abbrev pub is_none {ℓ} : {A : Type ℓ} → Option A → Bool
is_none none = true
is_none (some a) = false

-- The field that `choose_start` sets.
abbrev pub start_record :
    {F : Type 0} → Option ℕ → Option F → ℕ → Result EnvError ℕ → Option (ℕ × ℕ) → Option (ℕ × ℕ)
start_record none frac n chosen old = old
start_record (some h) frac n (err e) old = old
start_record (some h) frac n (ok start) old = some (start, n - (h + 1))

-- The horizon taken from the length of the day.
unfoldable pub align_steps : {F G : Type 0} → RlEnv F G → ℕ → RlEnv F G
align_steps e n =
    if is_none e.cfg.episode_steps && is_default_steps e.cfg.total_steps
    then record e { cfg = record e.cfg { total_steps = n } }
    else e

module _ {F : Type 0} ⦃f : Float F⦄ where
  -- The depth near the mid of the first `samples` snapshots that have one, and their number.
  unfoldable pub sample_depths : ℕ → LobReplay F → F → ℕ → F × ℕ
  unfolding next_snapshot mid_price bid_depth_up_to
  sample_depths zero r depth_sum count = (depth_sum, count)
  sample_depths (suc samples) r depth_sum count = elim (next_snapshot r).0 [
    | none ↦ (depth_sum, count)
    | some b ↦ elim (mid_price b) [
      | none ↦ sample_depths samples (next_snapshot r).1 depth_sum count
      | some m ↦
          sample_depths samples (next_snapshot r).1 (depth_sum ⊕ bid_depth_up_to b (m ⊗ lit 99 2))
            (suc count)
    ]
  ]

  abbrev pub mean_depth : F × ℕ → F
  mean_depth sums = sums.0 ⊘ f.of_usize (max_one sums.1)

  abbrev pub in_units : Option F → F → F
  in_units none depth = depth
  in_units (some factor) depth = depth ⊗ factor

  unfoldable pub twap_drift_gain : List F → ℕ → ℕ → F
  unfolding fsum
  twap_drift_gain mids start horizon = elim (get_elem? mids start) [
    | none ↦ nought
    | some arrival ↦
        let window = slice start (min (start + horizon) (length mids)) mids in
        if arrival ≤? nought || horizon == 0
        then nought
        else fsum (map (λ m. m ⊘ arrival ⊖ one) window) ⊘ f.of_usize (length window)
  ]

  abbrev pub in_unit : F → Bool
  in_unit s = nought ≤? s && s ≤? one

module _ {F G : Type 0} ⦃f : Float F⦄ (draws : Rng F G) where
  -- The start among 0 to `max_start`.
  unfoldable pub place_start : Option F → ℕ → ℕ → Result EnvError ℕ
  place_start none max_start seed =
      ok (draws.range_usize 0 max_start (draws.seed_from_u64 (bit_xor seed start_seed_salt))).0
  place_start (some s) max_start seed =
      if in_unit s then ok (f.round_usize (s ⊗ f.of_usize max_start)) else err start_out_of_range

  unfoldable pub start_within : Option F → Option ℕ → ℕ → Result EnvError ℕ
  unfolding place_start
  start_within frac none seed = err day_too_short
  start_within frac (some max_start) seed = place_start frac max_start seed

  unfoldable pub start_of : Option ℕ → Option F → ℕ → ℕ → Result EnvError ℕ
  unfolding start_within
  start_of none none n seed = ok (seed % max_one (n / 3))
  start_of none (some s) n seed = err start_needs_steps
  start_of (some h) frac n seed = start_within frac (checked_sub n (h + 1)) seed

  unfoldable pub choose_start : RlEnv F G → ℕ → ℕ → RlEnv F G × Result EnvError ℕ
  unfolding start_of
  choose_start e n seed =
      let chosen = start_of e.cfg.episode_steps e.start_frac n seed in
      (
        record e {
          episode_start = start_record e.cfg.episode_steps e.start_frac n chosen e.episode_start;
        },
        chosen,
      )

  unfoldable pub reset_synthetic : RlEnv F G → ℕ → RlEnv F G
  unfolding new_garch synthetic_book mid_price half_spread bid_depth_up_to fmax fsum
  reset_synthetic e seed =
      let initial_price = lit 100 0 in
      let sigma = e.cfg.sigma_ref in
      let dt = one ⊘ f.of_usize e.cfg.total_steps in
      let sim =
        new_garch draws initial_price (lit 5 2) (lit 2 6) (lit 8 2) (lit 90 2) (sigma ⊗ sigma) dt
          seed in
      let book = synthetic_book initial_price sigma e.cfg.total_inventory in
      let mid_of : ℕ → F =
        λ k. initial_price ⊗ (one ⊕ lit 1 3 ⊗ (f.of_usize k ⊖ lit 25 0) ⊘ lit 25 0) in
      let depth_of : ℕ → F = λ k.
        let b = synthetic_book (mid_of k) sigma e.cfg.total_inventory in
        bid_depth_up_to b (unwrap_or (mid_price b) (mid_of k) ⊗ lit 99 2) in
      let arrival = unwrap_or (mid_price book) initial_price in
      push_price
        (record e {
          arrival_price = arrival;
          current_mid = arrival;
          spread_ref = fmax (unwrap_or (half_spread book) (lit 1 2)) (lit 1 9);
          depth_ref =
              fmax (mean_depth (fsum (from_index depth_of 0 depth_ref_samples), depth_ref_samples))
                one;
          current_book = some book;
          sim = some sim;
          lob_replay = none;
        })
        arrival
