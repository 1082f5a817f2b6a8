-- ===== src/Rl/Batch.antt =====
-- src/bin/rl_env/batched.rs: N environments stepped together over one cache. `to_f32` is the cast of
-- the reported numbers; an assertion that fails, or an index out of range, is `none`.
use strata_exec.Prelude.{
  ℕ, zero, suc, Bool, Option, none, some, List, [], ◌∷◌, ◌++◌, map, length, get_elem?, ◌==◌,
  if◌then◌else◌,
}
use strata_exec.Float.{Float}
use strata_exec.Market.Simulators.{Rng}
use strata_exec.Market.Adversarial.{repeat}
use strata_exec.Rl.Config.{EnvConfig}
use strata_exec.Rl.Cache.{Files, MarketDataCache, no_data}
use strata_exec.Rl.Env.{RlEnv, new_env}
use strata_exec.Rl.Env.Step.{StepResult, step}
use strata_exec.Rl.Env.Reset.Begin.{n_dims, reset_at}

pub record BatchedRlEnv (F G : Type 0) : Type 0 where
  pub envs : List (RlEnv F G)
  pub n_state_dims : ℕ
  pub cache : MarketDataCache F

pub record BatchStepResult (F : Type 0) : Type 0 where
  pub states : List F
  pub rewards : List F
  pub dones : List Bool
  pub n : ℕ
  pub d : ℕ

-- The columns in progress.
pub record Columns (F : Type 0) : Type 0 where
  pub states : List F
  pub rewards : List F
  pub dones : List Bool

-- One instance's part of a batched call, on the shared cache.
abbrev pub Action : Type 0 → Type 0 → Type 0
Action F G = MarketDataCache F → RlEnv F G → MarketDataCache F × RlEnv F G × StepResult F

abbrev pub set_at {ℓ} : {A : Type ℓ} → List A → ℕ → A → List A
set_at [] i a = []
set_at (x ∷ xs) zero a = a ∷ xs
set_at (x ∷ xs) (suc i) a = x ∷ set_at xs i a

module _ {F G : Type 0} ⦃f : Float F⦄ where
  unfoldable pub new_batch : EnvConfig F → ℕ → Option (BatchedRlEnv F G)
  unfolding new_env
  new_batch cfg zero = none
  new_batch cfg (suc n) = some (record {
    envs = repeat (suc n) (new_env cfg);
    n_state_dims = n_dims cfg.no_time_features;
    cache = no_data;
  })

module _ {F G : Type 0} ⦃f : Float F⦄ (draws : Rng F G) (files : Files F) (to_f32 : F → F) where
  unfoldable pub push_row : StepResult F → Columns F → Columns F
  push_row r c = record {
    states = map to_f32 r.state ++ c.states;
    rewards = to_f32 r.reward ∷ c.rewards;
    dones = r.done ∷ c.dones;
  }

  -- The loop of `collect` over the instances and their arguments, in order.
  unfoldable pub collect_from :
      (ℕ → Action F G)
      → List (RlEnv F G)
      → List ℕ
      → MarketDataCache F
      → MarketDataCache F × List (RlEnv F G) × Columns F
  unfolding push_row
  collect_from act [] args cache = (cache, [], record { states = []; rewards = []; dones = [] })
  collect_from act (e ∷ es) [] cache =
      (cache, e ∷ es, record { states = []; rewards = []; dones = [] })
  collect_from act (e ∷ es) (a ∷ args) cache =
      let out = act a cache e in
      let rest = collect_from act es args out.0 in (rest.0, out.1 ∷ rest.1, push_row out.2 rest.2)

  abbrev pub columns_result : Columns F → ℕ → ℕ → BatchStepResult F
  columns_result c n d = record {
    states = c.states;
    rewards = c.rewards;
    dones = c.dones;
    n = n;
    d = d;
  }

  unfoldable pub collect :
      (ℕ → Action F G) → BatchedRlEnv F G → List ℕ → Option (BatchedRlEnv F G × BatchStepResult F)
  unfolding collect_from
  collect act b args =
      let out = collect_from act b.envs args b.cache in
      if length args == length b.envs
      then some (
        record b { envs = out.1; cache = out.0 },
        columns_result out.2 (length b.envs) b.n_state_dims,
      )
      else none

  abbrev pub reset_one : ℕ → Action F G
  reset_one seed cache e =
      let out = reset_at draws files cache e (some seed) none in (out.0, out.1, out.2.result)

  abbrev pub step_one : ℕ → Action F G
  step_one action cache e = let out = step draws e action in (cache, out.0, out.1)

  unfoldable pub reset_batch :
      BatchedRlEnv F G → List ℕ → Option (BatchedRlEnv F G × BatchStepResult F)
  unfolding collect reset_at
  reset_batch b seeds = collect reset_one b seeds

  unfoldable pub step_batch :
      BatchedRlEnv F G → List ℕ → Option (BatchedRlEnv F G × BatchStepResult F)
  unfolding collect step
  step_batch b actions = collect step_one b actions

  abbrev pub push_rest :
      StepResult F → Option (BatchedRlEnv F G × Columns F) → Option (BatchedRlEnv F G × Columns F)
  push_rest r none = none
  push_rest r (some (b, c)) = some (b, push_row r c)

  -- The loop of `reset_indices` over the indices with their seeds.
  unfoldable pub reset_each :
      BatchedRlEnv F G → List ℕ → List ℕ → Option (BatchedRlEnv F G × Columns F)
  unfolding reset_at push_row
  reset_each b [] seeds = some (b, record { states = []; rewards = []; dones = [] })
  reset_each b (i ∷ is) [] = none
  reset_each b (i ∷ is) (seed ∷ seeds) = elim (get_elem? b.envs i) [
    | none ↦ none
    | some e ↦
        let out = reset_at draws files b.cache e (some seed) none in
        push_rest out.2.result
          (reset_each (record b { envs = set_at b.envs i out.1; cache = out.0 }) is seeds)
  ]

  abbrev pub indices_result :
      ℕ → ℕ → Option (BatchedRlEnv F G × Columns F) → Option (BatchedRlEnv F G × BatchStepResult F)
  indices_result n d none = none
  indices_result n d (some (b, c)) = some (b, columns_result c n d)

  unfoldable pub reset_indices :
      BatchedRlEnv F G → List ℕ → List ℕ → Option (BatchedRlEnv F G × BatchStepResult F)
  unfolding reset_each
  reset_indices b indices seeds =
      if length indices == length seeds
      then indices_result (length indices) b.n_state_dims (reset_each b indices seeds)
      else none
