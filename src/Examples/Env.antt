-- ===== src/Examples/Env.antt =====
-- The training environment at concrete inputs.
use native.Mathlib.Nat.{mod-lt}
use strata_exec.Prelude.{
  ℕ, suc, ◌+◌, ◌-◌, ◌%◌, ◌≤◌, ◌≡◌, true, Option, none, some, List, [], ◌∷◌, arith, length,
}
use strata_exec.Prelude.Int.{ℤ}
use strata_exec.Prelude.Text.{Text, codes, parse_u64}
use strata_exec.Float.{lit}
use strata_exec.Float.Fixed.{fixed_float, fixed_rounding, fixed-IsExact}
use strata_exec.Float.Order.{◌≼◌}
use strata_exec.Float.Exact.{Balance}
use strata_exec.Market.OrderBook.{OrderBook}
use strata_exec.Market.Simulators.{Rng}
use strata_exec.Rl.Config.{EnvConfig, default_config, historical}
use strata_exec.Rl.Config.Parse.{parse_args}
use strata_exec.Rl.Config.Rules.{Succeeds, IsConfig, parse_args-IsConfig}
use strata_exec.Rl.Env.{RlEnv, new_env}
use strata_exec.Rl.Env.Step.{Closing, step, result_of}
use strata_exec.Rl.Env.Step.Episode.{Steps, step-Steps, play, play-Ends}
use strata_exec.Rl.Env.Reset.{day_too_short, choose_start}
use strata_exec.Rl.Env.Reset.Begin.{n_dims, report}
use strata_exec.Rl.Env.Reset.Starts.{IsStart, choose_start-IsStart}
use strata_exec.Rl.Env.Reset.Dims.{report-length}
use strata_exec.Examples.Data.{given}

-- A generator whose state counts its draws.
abbrev counting : Rng ℤ ℕ
counting = record {
  seed_from_u64 = λ seed. seed;
  standard_normal = λ g. (lit 1 1, suc g);
  normal = λ mu sigma g. (mu, suc g);
  unit_interval = λ g. (lit 5 1, suc g);
  range_usize = λ lo hi g. (lo + g % suc (hi - lo), suc g);
  range_f64 = λ lo hi g. (lo, suc g);
}

counting_in_range : (hi g : ℕ) → (counting.range_usize 0 hi g).0 ≤ hi
counting_in_range hi g = omega (arith, mod-lt g {m = suc (hi - 0)} (omega arith))

abbrev recorded : EnvConfig ℤ
recorded = record default_config {
  mode = historical;
  total_steps = 2;
  total_inventory = lit 10 0;
  episode_steps = some 2;
}

abbrev book : OrderBook ℤ
book = record {
  asks = record { price = lit 101 0; quantity = lit 4 0 } ∷ [];
  bids =
      record { price = lit 99 0; quantity = lit 4 0 }
      ∷ record { price = lit 98 0; quantity = lit 3 0 }
      ∷ [];
  timestamp = 7;
}

-- An environment at the start of an episode of two steps, with ten units to sell.
abbrev fresh : RlEnv ℤ ℕ
fresh = record (new_env recorded) { remaining = lit 10 0; current_book = some book }

step-Steps_example : Steps fixed-IsExact fresh (step counting fresh 15)
step-Steps_example = step-Steps fixed-IsExact counting fresh 15 (given 10 0)

play-Ends_example :
    let out = play counting fresh 15 (0 ∷ []) in
    (out.1.done ≡ true)
    × (out.0.remaining ≼ lit 1 12)
    × Balance out.0.total_filled out.0.remaining fresh.total_filled fresh.remaining
play-Ends_example =
    play-Ends fixed-IsExact counting fresh 15 (0 ∷ []) (given 10 0)
      (unfold new_env default_config in omega arith)

choose_start-IsStart_example :
    IsStart {F = ℤ} (some 2) none 12 (choose_start counting fresh 12 34).1
unfolding new_env
choose_start-IsStart_example = choose_start-IsStart {F = ℤ} counting counting_in_range fresh 12 34

abbrev idle : Closing ℤ ℕ
idle = record {
  env = fresh;
  book = none;
  total_reward_adj = lit 0 0;
  done = true;
  forced = none;
  dust = none;
}

report-length_example :
    (length (report fresh (some day_too_short)).result.state ≡ n_dims fresh.cfg.no_time_features)
    × (length (result_of idle (lit 0 0)).state ≡ n_dims idle.env.cfg.no_time_features)
report-length_example = report-length fresh (some day_too_short) idle (lit 0 0)

-- A reader of the numbers without a fraction.
abbrev read_whole : Text → Option ℤ
read_whole v = elim (parse_u64 v) [ none ↦ none | some n ↦ some (lit n 0) ]

abbrev arguments : List Text
arguments =
    codes "--rl-mode"
    ∷ codes "Counterfactual"
    ∷ codes "--episode-steps"
    ∷ codes "480"
    ∷ codes "--reward-baseline"
    ∷ codes "twap"
    ∷ codes "--btc-target"
    ∷ codes "20"
    ∷ []

parse_args-IsConfig_example : Succeeds IsConfig (parse_args read_whole arguments)
parse_args-IsConfig_example = parse_args-IsConfig read_whole arguments
