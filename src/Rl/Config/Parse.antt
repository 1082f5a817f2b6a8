-- ===== src/Rl/Config/Parse.antt =====
-- src/bin/rl_env/config.rs: `parse_args`, its loop and the checks after it.
use strata_exec.Prelude.{
  ℕ, zero, suc, Bool, true, false, ◌&&◌, not, Option, none, some, List, [], ◌∷◌, Result, ok, err,
  ◌==◌, if◌then◌else◌,
}
use strata_exec.Prelude.Text.{Text, codes, same, to_lowercase, parse_u64}
use strata_exec.Float.{Float}
use strata_exec.Rl.Config.{
  RlMode, synthetic, historical, counterfactual, RewardBaseline, mid, twap, EnvConfig,
  default_config, default_total_steps, historical_default_steps, is_replay, is_synthetic,
  is_counterfactual, is_twap, calibrated_sigma_ref,
}

-- The arms of the `match` on a flag.
pub data Flag : Type 0 where
  flag_mode flag_inventory flag_steps flag_baseline flag_episode flag_seed flag_lob flag_target :
      Flag
  flag_adv flag_agg flag_sigma flag_batch flag_adversarial flag_fixed_steps flag_fixed_size : Flag
  flag_no_time flag_query : Flag

pub data ArgError : Type 0 where
  requires_value : Flag → ArgError
  invalid_value : Flag → Text → ArgError
  unknown_argument : Text → ArgError
  episode_steps_not_positive steps_exclusive steps_in_synthetic : ArgError
  adversarial_counterfactual twap_not_counterfactual : ArgError

-- The variables of the loop.
pub record Parsed (F : Type 0) : Type 0 where
  pub cfg : EnvConfig F
  pub sigma_ref_explicit : Bool
  pub total_steps_explicit : Bool

abbrev pub spellings : List (Text × Flag)
spellings =
    (codes "--rl-mode", flag_mode)
    ∷ (codes "--total-inventory", flag_inventory)
    ∷ (codes "--total-steps", flag_steps)
    ∷ (codes "--reward-baseline", flag_baseline)
    ∷ (codes "--episode-steps", flag_episode)
    ∷ (codes "--seed", flag_seed)
    ∷ (codes "--lob-data", flag_lob)
    ∷ (codes "--btc-target", flag_target)
    ∷ (codes "--adv-btc", flag_adv)
    ∷ (codes "--agg-trades", flag_agg)
    ∷ (codes "--sigma-ref", flag_sigma)
    ∷ (codes "--batch-size", flag_batch)
    ∷ (codes "--socket-path", flag_batch)
    ∷ (codes "--adversarial", flag_adversarial)
    ∷ (codes "--fixed-steps", flag_fixed_steps)
    ∷ (codes "--fixed-size", flag_fixed_size)
    ∷ (codes "--no-time-features", flag_no_time)
    ∷ (codes "--print-action-fractions", flag_query)
    ∷ (codes "--print-env-constants", flag_query)
    ∷ (codes "--print-calibration", flag_query)
    ∷ []

unfoldable pub flag_among : List (Text × Flag) → Text → Option Flag
unfolding same
flag_among [] a = none
flag_among ((name, flag) ∷ rest) a =
    let later = flag_among rest a in if same a name then some flag else later

unfoldable pub flag_of : Text → Option Flag
unfolding flag_among
flag_of a = flag_among spellings a

unfoldable pub mode_of : Text → Option RlMode
unfolding same to_lowercase
mode_of v =
    let name = to_lowercase v in
    if same name (codes "synthetic")
    then some synthetic
    else if same name (codes "historical")
    then some historical
    else if same name (codes "counterfactual")
    then some counterfactual
    else none

unfoldable pub baseline_of : Text → Option RewardBaseline
unfolding same
baseline_of v =
    if same v (codes "mid") then some mid else if same v (codes "twap") then some twap else none

-- A value that is read, or the error that stops the parser.
abbrev pub with_value :
    {A B : Type 0} → Flag → Text → Option A → (A → Result ArgError B) → Result ArgError B
with_value flag v none k = err (invalid_value flag v)
with_value flag v (some a) k = k a

abbrev pub after : {A B : Type 0} → Result ArgError A → (A → Result ArgError B) → Result ArgError B
after (err e) k = err e
after (ok a) k = k a

-- `if refused { return Err(e) }`
abbrev pub unless : {A : Type 0} → Bool → ArgError → Result ArgError A → Result ArgError A
unless true e rest = err e
unless false e rest = rest

module _ {F : Type 0} ⦃f : Float F⦄ where
  abbrev with_cfg : Parsed F → EnvConfig F → Parsed F
  with_cfg p cfg = record p { cfg = cfg }

  -- The arms that take no value; `none` for the others.
  unfoldable pub set_switch : Flag → Parsed F → Option (Parsed F)
  set_switch flag_adversarial p = some (with_cfg p (record p.cfg { adversarial = true }))
  set_switch flag_fixed_steps p = some (with_cfg p (record p.cfg { fixed_steps = true }))
  set_switch flag_fixed_size p = some (with_cfg p (record p.cfg { fixed_size = true }))
  set_switch flag_no_time p = some (with_cfg p (record p.cfg { no_time_features = true }))
  set_switch flag_query p = some p
  set_switch _ p = none

  abbrev pub positive_steps : ℕ → Parsed F → Result ArgError (Parsed F)
  positive_steps zero p = err episode_steps_not_positive
  positive_steps (suc n) p = ok (with_cfg p (record p.cfg { episode_steps = some (suc n) }))

  -- The rules on `--episode-steps`.
  unfoldable pub settle_steps : Option ℕ → Parsed F → Result ArgError (EnvConfig F)
  settle_steps none p = ok p.cfg
  settle_steps (some h) p = unless p.total_steps_explicit steps_exclusive (
      unless (is_synthetic p.cfg.mode) steps_in_synthetic
        (ok (record p.cfg { total_steps = h; fixed_steps = true })))

  -- The defaults that depend on the mode.
  unfoldable pub mode_defaults : Bool → EnvConfig F → EnvConfig F
  mode_defaults sigma_ref_explicit cfg = record cfg {
    total_steps =
        if is_replay cfg.mode && cfg.total_steps == default_total_steps
        then historical_default_steps
        else cfg.total_steps;
    sigma_ref =
        if is_replay cfg.mode && not sigma_ref_explicit
        then calibrated_sigma_ref
        else cfg.sigma_ref;
  }

  unfoldable pub check_modes : Bool → EnvConfig F → Result ArgError (EnvConfig F)
  unfolding mode_defaults
  check_modes sigma_ref_explicit cfg =
      unless (cfg.adversarial && is_counterfactual cfg.mode) adversarial_counterfactual (
        unless (is_twap cfg.reward_baseline && not (is_counterfactual cfg.mode))
          twap_not_counterfactual (ok (mode_defaults sigma_ref_explicit cfg)))

  -- The last argument: a flag that takes a value has none.
  unfoldable pub last_switch : Flag → Option (Parsed F) → Result ArgError (Parsed F)
  last_switch flag none = err (requires_value flag)
  last_switch flag (some p) = ok p

  unfoldable pub last_argument : Text → Option Flag → Parsed F → Result ArgError (Parsed F)
  unfolding last_switch set_switch
  last_argument a none p = err (unknown_argument a)
  last_argument a (some flag) p = last_switch flag (set_switch flag p)

  unfoldable pub finish : Parsed F → Result ArgError (EnvConfig F)
  unfolding settle_steps check_modes
  finish p =
      after (settle_steps p.cfg.episode_steps p) (λ cfg. check_modes p.sigma_ref_explicit cfg)

  module _ (parse_f64 : Text → Option F) where
    -- The arms that take a value.
    unfoldable pub set_value : Flag → Text → Parsed F → Result ArgError (Parsed F)
    unfolding mode_of baseline_of parse_u64
    set_value flag_mode v p =
        with_value flag_mode v (mode_of v) (λ m. ok (with_cfg p (record p.cfg { mode = m })))
    set_value flag_inventory v p =
        with_value flag_inventory v (parse_f64 v)
          (λ x. ok (with_cfg p (record p.cfg { total_inventory = x })))
    set_value flag_steps v p =
        with_value flag_steps v (parse_u64 v) (λ n.
          ok (record p { cfg = record p.cfg { total_steps = n }; total_steps_explicit = true }))
    set_value flag_baseline v p =
        with_value flag_baseline v (baseline_of v)
          (λ b. ok (with_cfg p (record p.cfg { reward_baseline = b })))
    set_value flag_episode v p = with_value flag_episode v (parse_u64 v) (λ h. positive_steps h p)
    set_value flag_seed v p =
        with_value flag_seed v (parse_u64 v) (λ n. ok (with_cfg p (record p.cfg { seed = n })))
    set_value flag_lob v p = ok (with_cfg p (record p.cfg { lob_data_path = some v }))
    set_value flag_target v p =
        with_value flag_target v (parse_f64 v)
          (λ x. ok (with_cfg p (record p.cfg { btc_target = x })))
    set_value flag_adv v p =
        with_value flag_adv v (parse_f64 v) (λ x. ok (with_cfg p (record p.cfg { adv_btc = x })))
    set_value flag_agg v p = ok (with_cfg p (record p.cfg { agg_trades_path = some v }))
    set_value flag_sigma v p =
        with_value flag_sigma v (parse_f64 v)
          (λ x. ok (record p { cfg = record p.cfg { sigma_ref = x }; sigma_ref_explicit = true }))
    set_value _ v p = ok p

    -- One round of the loop at a flag and the argument `v` after it: `next` is the loop from the
    -- argument after both, `here` from `v`.
    unfoldable pub take_value :
        Text
        → Flag
        → Option (Parsed F)
        → (Parsed F → Result ArgError (Parsed F))
        → (Parsed F → Result ArgError (Parsed F))
        → Parsed F
        → Result ArgError (Parsed F)
    unfolding set_value
    take_value v flag none next here p = after (set_value flag v p) next
    take_value v flag (some p') next here p = here p'

    unfoldable pub take_flag :
        Text
        → Text
        → Option Flag
        → (Parsed F → Result ArgError (Parsed F))
        → (Parsed F → Result ArgError (Parsed F))
        → Parsed F
        → Result ArgError (Parsed F)
    unfolding take_value set_switch
    take_flag a v none next here p = err (unknown_argument a)
    take_flag a v (some flag) next here p = take_value v flag (set_switch flag p) next here p

    unfoldable pub parse_from : List Text → Parsed F → Result ArgError (Parsed F)
    unfolding flag_of take_flag last_argument
    parse_from [] p = ok p
    parse_from (a ∷ []) p = last_argument a (flag_of a) p
    parse_from (a ∷ v ∷ rest) p =
        take_flag a v (flag_of a) (λ p'. parse_from rest p') (λ p'. parse_from (v ∷ rest) p') p

    unfoldable pub parse_args : List Text → Result ArgError (EnvConfig F)
    unfolding parse_from finish default_config
    parse_args args =
        after
          (parse_from args (record {
            cfg = default_config;
            sigma_ref_explicit = false;
            total_steps_explicit = false;
          }))
          finish
