-- ===== src/Rl/Env/Reset/Recorded.antt =====
-- src/bin/rl_env/env/reset.rs: the start of an episode on recorded data, historical and counterfactual.
use strata_exec.Prelude.{ℕ, Option, none, some, List, [], map, Result, ok, err, if◌then◌else◌}
use strata_exec.Prelude.Text.{Text}
use strata_exec.Float.{Float, ◌⊘◌, ◌<?◌, lit, nought, one, fmax}
use strata_exec.Market.OrderBook.{OrderBook, mid_price, half_spread, rescale_full, unwrap_or}
use strata_exec.Market.Simulators.{Rng}
use strata_exec.Market.LobReplay.{
  LobReplay, next_snapshot, seek, len, snapshot_timestamps, snapshot_mid,
}
use strata_exec.Market.LobReplay.Cells.{ParseError}
use strata_exec.Market.AggTrades.{AggTradesDay, build_ofi_series, build_volume_series}
use strata_exec.Market.CounterfactualLob.{
  CounterfactualLob, CounterfactualLobConfig, calibrated, new_lob, set_btc_scale,
}
use strata_exec.Rl.Config.{is_twap, depth_ref_samples}
use strata_exec.Rl.Cache.{Files, MarketDataCache, load_lob, load_agg}
use strata_exec.Rl.Env.{RlEnv}
use strata_exec.Rl.Env.Observe.{push_price}
use strata_exec.Rl.Env.Reset.{
  EnvError, unreadable_data, lob_data_required, no_snapshot, Loading, sample_depths, mean_depth,
  in_units, twap_drift_gain, choose_start, is_none, align_steps,
}

module _ {F G : Type 0} ⦃f : Float F⦄ (draws : Rng F G) where
  -- The series of the trades at the snapshots, empty where no trades are read; a failed reading is
  -- not an error.
  abbrev pub with_flow : RlEnv F G → Option (AggTradesDay F) → List ℕ → ℕ → RlEnv F G
  with_flow e none stamps start = record e { ofi_series = []; volume_series = []; ofi_start = 0 }
  with_flow e (some agg) stamps start = record e {
    ofi_series = build_ofi_series agg stamps 30000;
    volume_series = build_volume_series agg stamps;
    ofi_start = start;
  }

  abbrev pub read_value : {A : Type 0} → Result ParseError A → Option A
  read_value (ok a) = some a
  read_value (err e) = none

  unfoldable pub load_flow :
      Files F → MarketDataCache F → Option Text → MarketDataCache F × Option (AggTradesDay F)
  unfolding load_agg
  load_flow files c none = (c, none)
  load_flow files c (some path) =
      let loaded = load_agg files c path in (loaded.0, read_value loaded.1)

  abbrev pub failed : MarketDataCache F → RlEnv F G → EnvError → Loading F G
  failed c e error = record { cache = c; env = e; outcome = some error }

  -- Historical mode from the first snapshot of the episode, and the replay after it.
  unfoldable pub start_historical :
      Files F → MarketDataCache F → RlEnv F G → ℕ → Option (OrderBook F) × LobReplay F → Loading F G
  unfolding mid_price rescale_full half_spread fmax load_flow build_ofi_series build_volume_series
      snapshot_timestamps
  start_historical files c e start (none, replay) = failed c e no_snapshot
  start_historical files c e start (some first, replay) =
      let raw_btc_mid = unwrap_or (mid_price first) (lit 100 0) in
      let factor = lit 100 0 ⊘ raw_btc_mid in
      let btc_scale = fmax (e.cfg.btc_target ⊘ e.cfg.total_inventory) (lit 1 12) in
      let scaled = rescale_full first factor (one ⊘ btc_scale) in
      let flow = load_flow files c e.cfg.agg_trades_path in
      let placed : RlEnv F G = record e {
        price_factor = factor;
        spread_ref = fmax (unwrap_or (half_spread scaled) (lit 1 2)) (lit 1 9);
        current_mid = raw_btc_mid;
        current_book = some scaled;
        arrival_price = lit 100 0;
        lob_replay = some replay;
        sim = none;
      } in
      record {
        cache = flow.0;
        env = with_flow (push_price placed raw_btc_mid) flow.1 (snapshot_timestamps replay) start;
        outcome = none;
      }

  -- The environment with the horizon and the reference depth of the day, in units of `scale` if given.
  unfoldable pub measure_day : RlEnv F G → LobReplay F → Option F → RlEnv F G
  unfolding align_steps sample_depths fmax len
  measure_day e replay scale =
      let aligned = align_steps e (len replay) in
      record aligned {
        depth_ref =
            fmax (in_units scale (mean_depth (sample_depths depth_ref_samples replay nought 0)))
              one;
      }

  abbrev pub place_historical :
      Files F → MarketDataCache F → LobReplay F → RlEnv F G × Result EnvError ℕ → Loading F G
  place_historical files c replay (e, err error) = failed c e error
  place_historical files c replay (e, ok start) =
      start_historical files c e start (next_snapshot (seek replay start))

  abbrev pub historical_from :
      Files F → RlEnv F G → ℕ → MarketDataCache F × Result ParseError (LobReplay F) → Loading F G
  historical_from files e seed (c, err error) = failed c e (unreadable_data error)
  historical_from files e seed (c, ok replay) =
      let btc_scale = fmax (e.cfg.btc_target ⊘ e.cfg.total_inventory) (lit 1 12) in
      place_historical files c replay
        (choose_start draws (measure_day e replay (some (one ⊘ btc_scale))) (len replay) seed)

  unfoldable pub reset_historical : Files F → MarketDataCache F → RlEnv F G → ℕ → Loading F G
  unfolding load_lob fmax measure_day choose_start seek next_snapshot start_historical len
  reset_historical files c e seed = elim e.cfg.lob_data_path [
    | none ↦ failed c e lob_data_required
    | some path ↦ historical_from files e seed (load_lob files c path)
  ]

  -- The counterfactual book of the first episode, calibrated to the date.
  unfoldable pub first_lob : RlEnv F G → LobReplay F → Option (AggTradesDay F) → F → RlEnv F G
  unfolding snapshot_mid calibrated new_lob
  first_lob e replay agg btc_scale =
      let mids = map snapshot_mid replay.snapshots in
      let base : CounterfactualLobConfig F =
        record (strata_exec.Market.CounterfactualLob.default_config) { btc_scale = btc_scale } in
      let fitted = calibrated base agg mids in
      let config : CounterfactualLobConfig F = record fitted {
        adv_btc = if nought <? e.cfg.adv_btc then e.cfg.adv_btc else fitted.adv_btc;
      } in
      record e { day_mids = mids; cf_lob = some (new_lob replay config) }

  abbrev pub restart_lob : CounterfactualLob F → F → ℕ → CounterfactualLob F
  restart_lob cf btc_scale start =
      strata_exec.Market.CounterfactualLob.seek
        (set_btc_scale (strata_exec.Market.CounterfactualLob.reset cf) btc_scale) start

  abbrev pub with_restarted : RlEnv F G → Option (CounterfactualLob F) → F → ℕ → RlEnv F G
  with_restarted e none btc_scale start = e
  with_restarted e (some cf) btc_scale start = record e {
    cf_lob = some (restart_lob cf btc_scale start);
  }

  unfoldable pub ready : RlEnv F G → F → ℕ → RlEnv F G
  unfolding set_btc_scale twap_drift_gain strata_exec.Market.CounterfactualLob.reset
      strata_exec.Market.CounterfactualLob.seek
  ready e btc_scale start =
      let restarted = with_restarted e e.cf_lob btc_scale start in
      record restarted {
        pending_baseline =
            if is_twap e.cfg.reward_baseline
            then twap_drift_gain e.day_mids start e.cfg.total_steps
            else e.pending_baseline;
      }

  -- The second reading of the path, of which the cache has the outcome of the first.
  abbrev pub build_lob :
      RlEnv F G
      → Option (AggTradesDay F)
      → F
      → ℕ
      → MarketDataCache F × Result ParseError (LobReplay F)
      → Loading F G
  build_lob e agg btc_scale start (c, err error) = failed c e (unreadable_data error)
  build_lob e agg btc_scale start (c, ok replay) = record {
    cache = c;
    env = ready (first_lob e replay agg btc_scale) btc_scale start;
    outcome = none;
  }

  unfoldable pub start_counterfactual :
      Files F
      → MarketDataCache F
      → Text
      → RlEnv F G
      → ℕ
      → Option (OrderBook F) × LobReplay F
      → Loading F G
  unfolding mid_price rescale_full half_spread fmax load_flow build_ofi_series build_volume_series
      snapshot_timestamps load_lob first_lob ready
  start_counterfactual files c path e start (none, replay) = failed c e no_snapshot
  start_counterfactual files c path e start (some first, replay) =
      let btc_scale = e.cfg.btc_target ⊘ e.cfg.total_inventory in
      let real_mid = unwrap_or (mid_price first) (lit 100 0) in
      let scaled = rescale_full first (lit 100 0 ⊘ fmax real_mid (lit 1 9)) (one ⊘ btc_scale) in
      let flow = load_flow files c e.cfg.agg_trades_path in
      let placed : RlEnv F G = record e {
        spread_ref = fmax (unwrap_or (half_spread scaled) (lit 1 2)) (lit 1 9);
        current_book = some first;
        arrival_price = lit 100 0;
        current_mid = lit 100 0;
        lob_replay = none;
        sim = none;
      } in
      let flowing =
        with_flow (push_price placed (lit 100 0)) flow.1 (snapshot_timestamps replay) start in
      if is_none e.cf_lob
      then build_lob flowing flow.1 btc_scale start (load_lob files flow.0 path)
      else record { cache = flow.0; env = ready flowing btc_scale start; outcome = none }

  abbrev pub place_counterfactual :
      Files F → MarketDataCache F → Text → LobReplay F → RlEnv F G × Result EnvError ℕ → Loading F G
  place_counterfactual files c path replay (e, err error) = failed c e error
  place_counterfactual files c path replay (e, ok start) =
      start_counterfactual files c path e start (next_snapshot (seek replay start))

  abbrev pub counterfactual_from :
      Files F
      → RlEnv F G
      → Text
      → ℕ
      → MarketDataCache F × Result ParseError (LobReplay F)
      → Loading F G
  counterfactual_from files e path seed (c, err error) = failed c e (unreadable_data error)
  counterfactual_from files e path seed (c, ok replay) =
      place_counterfactual files c path replay
        (choose_start draws (measure_day e replay none) (len replay) seed)

  unfoldable pub reset_counterfactual : Files F → MarketDataCache F → RlEnv F G → ℕ → Loading F G
  unfolding load_lob measure_day choose_start seek next_snapshot start_counterfactual len
  reset_counterfactual files c e seed = elim e.cfg.lob_data_path [
    | none ↦ failed c e lob_data_required
    | some path ↦ counterfactual_from files e path seed (load_lob files c path)
  ]
