-- ===== src/Rl/Env/Reset/Dims.antt =====
-- src/bin/rl_env/env: the length of the observations.
use strata_exec.Prelude.{
  ℕ, zero, suc, ◌+◌, ◌≡◌, refl, ap, Bool, true, false, Option, none, some, [], ◌∷◌, ◌++◌, length,
  if◌then◌else◌, arith,
}
use strata_exec.Float.{Float, nought}
use strata_exec.Market.Adversarial.{repeat}
use strata_exec.Market.CounterfactualLob.{CounterfactualLob}
use strata_exec.Rl.Env.{RlEnv}
use strata_exec.Rl.Env.Observe.{build_state, impact_features, time_features}
use strata_exec.Rl.Env.Step.{Closing, result_of}
use strata_exec.Rl.Env.Reset.{EnvError}
use strata_exec.Rl.Env.Reset.Begin.{n_dims, report}

length-repeat : {A : Type 0} (n : ℕ) (a : A) → length (repeat n a) ≡ n
length-repeat zero a = refl
length-repeat (suc n) a = ap suc (length-repeat n a)

module _ {F : Type 0} ⦃f : Float F⦄ where
  -- The last parts of an observation, of which the first eight numbers come before.
  tail-length :
      (cf : Option (CounterfactualLob F)) (no_time : Bool) (u v a b c d : F)
      → length (impact_features cf ++ (u ∷ v ∷ []) ++ (if no_time then [] else a ∷ b ∷ c ∷ d ∷ []))
          + 8
        ≡ n_dims no_time
  tail-length none true u v a b c d = refl
  tail-length none false u v a b c d = refl
  tail-length (some cf) true u v a b c d = refl
  tail-length (some cf) false u v a b c d = refl

module _ {F G : Type 0} ⦃f : Float F⦄ where
  build_state-length : (e : RlEnv F G) → length (build_state e) ≡ n_dims e.cfg.no_time_features
  unfolding build_state time_features
  build_state-length e = omega (arith, tail-length e.cf_lob e.cfg.no_time_features _ _ _ _ _ _)

  -- The observation that a reset reports, whether it succeeds or fails, and the one that a step reports
  -- have 12 numbers where the time features are left out and 16 otherwise.
  pub report-length :
      (e : RlEnv F G) (error : Option EnvError) (c : Closing F G) (reward : F)
      → (length (report e error).result.state ≡ n_dims e.cfg.no_time_features)
        × (length (result_of c reward).state ≡ n_dims c.env.cfg.no_time_features)
  unfolding report result_of
  report-length e none c reward = (build_state-length e, build_state-length c.env)
  report-length e (some error) c reward =
      (length-repeat (n_dims e.cfg.no_time_features) nought, build_state-length c.env)
