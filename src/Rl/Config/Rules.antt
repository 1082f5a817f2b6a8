-- ===== src/Rl/Config/Rules.antt =====
-- src/bin/rl_env/config.rs: what holds of every configuration that the parser accepts.
use mathlib.Core.Path.{subst⁻¹}
use strata_exec.Prelude.{
  ℕ, zero, suc, ◌<◌, ◌≡◌, refl, Bool, true, false, ◌&&◌, not, Option, none, some, List, [], ◌∷◌,
  Result, ok, err, arith, ◌==◌, if◌then◌else◌, ◌∙◌,
}
use strata_exec.Prelude.Text.{Text, parse_u64}
use strata_exec.Float.{Float}
use strata_exec.Rl.Config.{
  RlMode, synthetic, historical, counterfactual, EnvConfig, default_config, is_replay, is_synthetic,
  is_counterfactual, is_twap,
}
use strata_exec.Rl.Config.Parse.{
  Flag, flag_mode, flag_inventory, flag_steps, flag_baseline, flag_episode, flag_seed, flag_lob,
  flag_target, flag_adv, flag_agg, flag_sigma, flag_batch, flag_adversarial, flag_fixed_steps,
  flag_fixed_size, flag_no_time, flag_query, ArgError, Parsed, flag_of, mode_of, baseline_of,
  with_value, after, unless, set_switch, set_value, positive_steps, settle_steps, mode_defaults,
  check_modes, last_switch, last_argument, take_value, take_flag, parse_from, finish, parse_args,
}

abbrev pub Positive : Option ℕ → Type 0
Positive none = Unit
Positive (some h) = 0 < h

-- P holds of the value, if there is one.
abbrev pub Succeeds : {A : Type 0} → (A → Type 0) → Result ArgError A → Type 0
Succeeds P (err e) = Unit
Succeeds P (ok a) = P a

Succeeds-with_value :
    {A B : Type 0} (P : B → Type 0) (flag : Flag) (v : Text) (o : Option A)
    (k : A → Result ArgError B)
    → ((a : A) → Succeeds P (k a))
    → Succeeds P (with_value flag v o k)
Succeeds-with_value P flag v none k h = tt
Succeeds-with_value P flag v (some a) k h = h a

Succeeds-after :
    {A B : Type 0} (Q : A → Type 0) (P : B → Type 0) (o : Result ArgError A)
    (k : A → Result ArgError B)
    → Succeeds Q o
    → ((a : A) → Q a → Succeeds P (k a))
    → Succeeds P (after o k)
Succeeds-after Q P (err e) k q h = tt
Succeeds-after Q P (ok a) k q h = h a q

Succeeds-unless :
    {A : Type 0} (P : A → Type 0) (b : Bool) (e : ArgError) (rest : Result ArgError A)
    → (b ≡ false → Succeeds P rest)
    → Succeeds P (unless b e rest)
Succeeds-unless P true e rest h = tt
Succeeds-unless P false e rest h = h refl

replays : (m : RlMode) → is_synthetic m ≡ false → is_replay m ≡ true
replays synthetic e = ground arith
replays historical e = refl
replays counterfactual e = refl

same_default : (b : Bool) (n : ℕ) → (if b && n == 2880 then 2880 else n) ≡ n
same_default b n = ground arith

module _ {F : Type 0} where
  -- What `--episode-steps` implies.
  abbrev pub StepsRule : Option ℕ → EnvConfig F → Type 0
  StepsRule none cfg = Unit
  StepsRule (some h) cfg =
      (0 < h) × (cfg.total_steps ≡ h) × (cfg.fixed_steps ≡ true) × (is_replay cfg.mode ≡ true)

  -- The configurations that the environment runs with.
  pub record IsConfig (cfg : EnvConfig F) : Type 0 where
    pub steps : StepsRule cfg.episode_steps cfg
    pub adversary : (cfg.adversarial && is_counterfactual cfg.mode) ≡ false
    pub baseline : (is_twap cfg.reward_baseline && not (is_counterfactual cfg.mode)) ≡ false

  abbrev HasSteps : Parsed F → Type 0
  HasSteps p = Positive p.cfg.episode_steps

module _ {F : Type 0} ⦃f : Float F⦄ where
  abbrev Kept : Option (Parsed F) → Type 0
  Kept none = Unit
  Kept (some p) = HasSteps p

  set_switch-HasSteps : (flag : Flag) (p : Parsed F) → HasSteps p → Kept (set_switch flag p)
  unfolding set_switch
  set_switch-HasSteps flag_adversarial p h = h
  set_switch-HasSteps flag_fixed_steps p h = h
  set_switch-HasSteps flag_fixed_size p h = h
  set_switch-HasSteps flag_no_time p h = h
  set_switch-HasSteps flag_query p h = h
  set_switch-HasSteps flag_mode p h = tt
  set_switch-HasSteps flag_inventory p h = tt
  set_switch-HasSteps flag_steps p h = tt
  set_switch-HasSteps flag_baseline p h = tt
  set_switch-HasSteps flag_episode p h = tt
  set_switch-HasSteps flag_seed p h = tt
  set_switch-HasSteps flag_lob p h = tt
  set_switch-HasSteps flag_target p h = tt
  set_switch-HasSteps flag_adv p h = tt
  set_switch-HasSteps flag_agg p h = tt
  set_switch-HasSteps flag_sigma p h = tt
  set_switch-HasSteps flag_batch p h = tt

  positive_steps-HasSteps : (h : ℕ) (p : Parsed F) → Succeeds HasSteps (positive_steps h p)
  positive_steps-HasSteps zero p = tt
  positive_steps-HasSteps (suc n) p = omega arith

  last_switch-HasSteps :
      (flag : Flag) (o : Option (Parsed F)) → Kept o → Succeeds HasSteps (last_switch flag o)
  unfolding last_switch
  last_switch-HasSteps flag none h = tt
  last_switch-HasSteps flag (some p) h = h

  last_argument-HasSteps :
      (a : Text) (o : Option Flag) (p : Parsed F)
      → HasSteps p
      → Succeeds HasSteps (last_argument a o p)
  unfolding last_argument
  last_argument-HasSteps a none p h = tt
  last_argument-HasSteps a (some flag) p h =
      last_switch-HasSteps flag (set_switch flag p) (set_switch-HasSteps flag p h)

  abbrev Keeps : (Parsed F → Result ArgError (Parsed F)) → Type 0
  Keeps k = (p : Parsed F) → HasSteps p → Succeeds HasSteps (k p)

  module _ (parse_f64 : Text → Option F) where
    set_value-HasSteps :
        (flag : Flag) (v : Text) (p : Parsed F)
        → HasSteps p
        → Succeeds HasSteps (set_value parse_f64 flag v p)
    unfolding set_value
    set_value-HasSteps flag_mode v p h = Succeeds-with_value _ _ _ (mode_of v) _ (λ a. h)
    set_value-HasSteps flag_inventory v p h = Succeeds-with_value _ _ _ (parse_f64 v) _ (λ a. h)
    set_value-HasSteps flag_steps v p h = Succeeds-with_value _ _ _ (parse_u64 v) _ (λ a. h)
    set_value-HasSteps flag_baseline v p h = Succeeds-with_value _ _ _ (baseline_of v) _ (λ a. h)
    set_value-HasSteps flag_episode v p h =
        Succeeds-with_value HasSteps _ _ (parse_u64 v) (λ n. positive_steps n p)
          (λ n. positive_steps-HasSteps n p)
    set_value-HasSteps flag_seed v p h = Succeeds-with_value _ _ _ (parse_u64 v) _ (λ a. h)
    set_value-HasSteps flag_target v p h = Succeeds-with_value _ _ _ (parse_f64 v) _ (λ a. h)
    set_value-HasSteps flag_adv v p h = Succeeds-with_value _ _ _ (parse_f64 v) _ (λ a. h)
    set_value-HasSteps flag_sigma v p h = Succeeds-with_value _ _ _ (parse_f64 v) _ (λ a. h)
    set_value-HasSteps flag_lob v p h = h
    set_value-HasSteps flag_agg v p h = h
    set_value-HasSteps flag_batch v p h = h
    set_value-HasSteps flag_adversarial v p h = h
    set_value-HasSteps flag_fixed_steps v p h = h
    set_value-HasSteps flag_fixed_size v p h = h
    set_value-HasSteps flag_no_time v p h = h
    set_value-HasSteps flag_query v p h = h

    take_value-HasSteps :
        (v : Text) (flag : Flag) (o : Option (Parsed F))
        (next here : Parsed F → Result ArgError (Parsed F)) (p : Parsed F)
        → Kept o
        → Keeps next
        → Keeps here
        → HasSteps p
        → Succeeds HasSteps (take_value parse_f64 v flag o next here p)
    unfolding take_value
    take_value-HasSteps v flag none next here p k n e h =
        Succeeds-after HasSteps HasSteps (set_value parse_f64 flag v p) next
          (set_value-HasSteps flag v p h) n
    take_value-HasSteps v flag (some p') next here p k n e h = e p' k

    take_flag-HasSteps :
        (a v : Text) (o : Option Flag) (next here : Parsed F → Result ArgError (Parsed F))
        (p : Parsed F)
        → Keeps next
        → Keeps here
        → HasSteps p
        → Succeeds HasSteps (take_flag parse_f64 a v o next here p)
    unfolding take_flag
    take_flag-HasSteps a v none next here p n e h = tt
    take_flag-HasSteps a v (some flag) next here p n e h =
        take_value-HasSteps v flag (set_switch flag p) next here p (set_switch-HasSteps flag p h) n
          e h

    parse_from-HasSteps :
        (args : List Text) (p : Parsed F)
        → HasSteps p
        → Succeeds HasSteps (parse_from parse_f64 args p)
    unfolding parse_from
    parse_from-HasSteps [] p h = h
    parse_from-HasSteps (a ∷ []) p h = last_argument-HasSteps a (flag_of a) p h
    parse_from-HasSteps (a ∷ v ∷ rest) p h =
        take_flag-HasSteps a v (flag_of a) _ _ p (λ p' h'. parse_from-HasSteps rest p' h')
          (λ p' h'. parse_from-HasSteps (v ∷ rest) p' h') h

  abbrev Settled : EnvConfig F → Type 0
  Settled cfg = StepsRule cfg.episode_steps cfg

  settle_steps-Settled :
      (o : Option ℕ) (p : Parsed F)
      → p.cfg.episode_steps ≡ o
      → Positive o
      → Succeeds Settled (settle_steps o p)
  unfolding settle_steps
  settle_steps-Settled none p e h = subst⁻¹ (λ o. StepsRule o p.cfg) e tt
  settle_steps-Settled (some n) p e h =
      let settled : EnvConfig F = record p.cfg { total_steps = n; fixed_steps = true } in
      Succeeds-unless Settled p.total_steps_explicit _ _ (λ a.
        Succeeds-unless Settled (is_synthetic p.cfg.mode) _ (ok settled)
          (λ b. subst⁻¹ (λ o. StepsRule o settled) e (h, refl, refl, replays p.cfg.mode b)))

  StepsRule-mode_defaults :
      (explicit : Bool) (o : Option ℕ) (cfg : EnvConfig F)
      → StepsRule o cfg
      → StepsRule o (mode_defaults explicit cfg)
  unfolding mode_defaults
  StepsRule-mode_defaults explicit none cfg h = tt
  StepsRule-mode_defaults explicit (some n) cfg h =
      (h.0, same_default (is_replay cfg.mode) cfg.total_steps ∙ h.1, h.2, h.3)

  check_modes-IsConfig :
      (explicit : Bool) (cfg : EnvConfig F)
      → Settled cfg
      → Succeeds IsConfig (check_modes explicit cfg)
  unfolding check_modes
  check_modes-IsConfig explicit cfg s =
      Succeeds-unless IsConfig (cfg.adversarial && is_counterfactual cfg.mode) _ _ (λ a.
        Succeeds-unless IsConfig (is_twap cfg.reward_baseline && not (is_counterfactual cfg.mode)) _
          (ok (mode_defaults explicit cfg))
          (λ b.
            unfold mode_defaults in
            record {
              steps = StepsRule-mode_defaults explicit cfg.episode_steps cfg s;
              adversary = a;
              baseline = b;
            }))

  -- A configuration that the parser accepts, whatever the arguments and whatever the reader of numbers
  -- returns: with `--episode-steps` h, h is positive and the horizon, the horizon is fixed and the mode
  -- replays recorded data; there is no adversary in counterfactual mode; and the TWAP baseline
  -- is used in that mode only.
  pub parse_args-IsConfig :
      (parse_f64 : Text → Option F) (args : List Text)
      → Succeeds IsConfig (parse_args parse_f64 args)
  unfolding parse_args finish
  parse_args-IsConfig parse_f64 args =
      Succeeds-after HasSteps (IsConfig {F = F}) (parse_from parse_f64 args _) finish
        (parse_from-HasSteps parse_f64 args _ (unfold default_config in tt))
        (λ p h.
          Succeeds-after Settled IsConfig (settle_steps p.cfg.episode_steps p) _
            (settle_steps-Settled p.cfg.episode_steps p refl h)
            (λ cfg s. check_modes-IsConfig p.sigma_ref_explicit cfg s))
