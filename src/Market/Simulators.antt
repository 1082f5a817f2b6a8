-- ===== src/Market/Simulators.antt =====
-- src/market/gbm.rs and src/market/garch.rs: the simulated price paths. The generator of the `rand`
-- crate is a parameter: its state `G` is passed from draw to draw.
use strata_exec.Prelude.{ℕ, Option, none, some, if◌then◌else◌}
use strata_exec.Float.{Float, ◌⊕◌, ◌⊖◌, ◌⊗◌, ◌⊘◌, ◌<?◌, lit, nought}

-- The draws of `StdRng` that the program makes; a range includes both its ends.
pub record Rng (F G : Type 0) : Type 0 where
  pub seed_from_u64 : ℕ → G
  pub standard_normal : G → F × G
  pub normal : F → F → G → F × G
  pub unit_interval : G → F × G
  pub range_usize : ℕ → ℕ → G → ℕ × G
  pub range_f64 : F → F → G → F × G

pub record GbmSimulator (F G : Type 0) : Type 0 where
  pub current_price : F
  pub mu : F
  pub sigma : F
  pub dt : F
  pub rng : G

pub record JumpGarchParams (F : Type 0) : Type 0 where
  pub lambda_j : F
  pub mu_j : F
  pub sigma_j : F

pub record GarchSimulator (F G : Type 0) : Type 0 where
  pub price : F
  pub mu : F
  pub omega : F
  pub alpha : F
  pub beta : F
  pub sigma2 : F
  pub dt : F
  pub rng : G
  pub jump_params : Option (JumpGarchParams F)

module _ {F G : Type 0} ⦃f : Float F⦄ (draws : Rng F G) where
  unfoldable pub new_gbm : F → F → F → F → ℕ → GbmSimulator F G
  new_gbm initial_price mu sigma dt seed = record {
    current_price = initial_price;
    mu = mu;
    sigma = sigma;
    dt = dt;
    rng = draws.seed_from_u64 seed;
  }

  unfoldable pub next_price : GbmSimulator F G → F × GbmSimulator F G
  next_price s =
      let drawn = draws.standard_normal s.rng in
      let drift = (s.mu ⊖ lit 5 1 ⊗ s.sigma ⊗ s.sigma) ⊗ s.dt in
      let diffusion = s.sigma ⊗ f.sqrt s.dt ⊗ drawn.0 in
      let price = s.current_price ⊗ f.exp (drift ⊕ diffusion) in
      (price, record s { current_price = price; rng = drawn.1 })

  unfoldable pub new_garch : F → F → F → F → F → F → F → ℕ → GarchSimulator F G
  new_garch price mu omega alpha beta sigma2_init dt seed = record {
    price = price;
    mu = mu;
    omega = omega;
    alpha = alpha;
    beta = beta;
    sigma2 = sigma2_init;
    dt = dt;
    rng = draws.seed_from_u64 seed;
    jump_params = none;
  }

  unfoldable pub new_with_jumps :
      F → F → F → F → F → F → F → ℕ → JumpGarchParams F → GarchSimulator F G
  unfolding new_garch
  new_with_jumps price mu omega alpha beta sigma2_init dt seed jump_params =
      record (new_garch price mu omega alpha beta sigma2_init dt seed) {
        jump_params = some jump_params;
      }

  -- The jump of a step. Without a positive rate nothing is drawn.
  unfoldable pub draw_jump : Option (JumpGarchParams F) → G → F × G
  draw_jump none g = (nought, g)
  draw_jump (some j) g =
      let drawn = draws.unit_interval g in
      let jumped = draws.normal j.mu_j j.sigma_j drawn.1 in
      if nought <? j.lambda_j
      then (if drawn.0 <? j.lambda_j then jumped else (nought, drawn.1))
      else (nought, g)

  unfoldable pub garch_return : GarchSimulator F G → F → F
  garch_return s z = (s.mu ⊖ lit 5 1 ⊗ s.sigma2) ⊗ s.dt ⊕ f.sqrt (s.sigma2 ⊗ s.dt) ⊗ z

  unfoldable pub next_variance : GarchSimulator F G → F → F
  next_variance s r =
      let r_per_period = r ⊘ f.sqrt s.dt in
      s.omega ⊕ s.alpha ⊗ r_per_period ⊗ r_per_period ⊕ s.beta ⊗ s.sigma2

  unfoldable pub step : GarchSimulator F G → F × GarchSimulator F G
  unfolding draw_jump garch_return next_variance
  step s =
      let drawn = draws.standard_normal s.rng in
      let r = garch_return s drawn.0 in
      let jumped = draw_jump s.jump_params drawn.1 in
      let price = s.price ⊗ f.exp (r ⊕ jumped.0) in
      (price, record s { price = price; sigma2 = next_variance s r; rng = jumped.1 })

  unfoldable pub volatility : GarchSimulator F G → F
  volatility s = f.sqrt s.sigma2
