-- ===== src/Strategies/AlmgrenChriss.antt =====
-- src/strategies/optimal.rs, first half: the closed-form Almgren-Chriss schedule.
pub mod Inventory
pub mod Model
use Prim.Native.Nat.{min, max}
use strata_exec.Prelude.{
  ℕ, zero, suc, ◌+◌, Bool, ◌||◌, Option, none, some, List, [], ◌∷◌, ◌==◌, ltb, if◌then◌else◌,
  Result, ok, err, not,
}
use strata_exec.Float.{Float, ◌⊕◌, ◌⊖◌, ◌⊗◌, ◌⊘◌, ◌<?◌, ◌≤?◌, ◌=?◌, lit, nought, fabs, fsum}

pub record AlmgrenChriss (F : Type 0) : Type 0 where
  pub total_inventory : F
  pub eta : F
  pub gamma : F
  pub lambda : F
  pub sigma : F
  pub horizon : ℕ

-- The refusals of `AlmgrenChriss::new`, with the value that the message quotes.
pub data ModelError (F : Type 0) : Type 0 where
  bad_inventory : F → ModelError F
  bad_eta : F → ModelError F
  bad_lambda : F → ModelError F
  bad_sigma : F → ModelError F
  bad_horizon : ℕ → ModelError F

-- `n.clamp(1, 200)` on `usize`.
abbrev pub clamp_horizon : ℕ → ℕ
clamp_horizon n = min (max n 1) 200

module _ {F : Type 0} ⦃f : Float F⦄ where
  unfoldable pub kappa : F → F → F → F
  kappa eta lambda sigma = f.sqrt (lambda ⊗ sigma ⊗ sigma ⊘ eta)

  unfoldable pub recommended_horizon : F → F → F → ℕ
  recommended_horizon eta lambda sigma =
      clamp_horizon (f.ceil_usize (lit 3 0 ⊘ (kappa eta lambda sigma ⊕ lit 1 12)))

  unfoldable pub choose_horizon : F → F → F → Option ℕ → Result (ModelError F) ℕ
  unfolding recommended_horizon
  choose_horizon eta lambda sigma (some h) = if ltb h 1 then err (bad_horizon h) else ok h
  choose_horizon eta lambda sigma none = ok (recommended_horizon eta lambda sigma)

  unfoldable pub with_horizon :
      F → F → F → F → Result (ModelError F) ℕ → Result (ModelError F) (AlmgrenChriss F)
  with_horizon total_inventory eta lambda sigma (err e) = err e
  with_horizon total_inventory eta lambda sigma (ok horizon) = ok (record {
    total_inventory = total_inventory;
    eta = eta;
    gamma = lit 1 1 ⊗ eta;
    lambda = lambda;
    sigma = sigma;
    horizon = horizon;
  })

  unfoldable pub new_model : F → F → F → F → Option ℕ → Result (ModelError F) (AlmgrenChriss F)
  unfolding with_horizon choose_horizon
  new_model total_inventory eta lambda sigma horizon_override =
      if total_inventory ≤? nought
      then err (bad_inventory total_inventory)
      else if eta ≤? nought
      then err (bad_eta eta)
      else if lambda <? nought
      then err (bad_lambda lambda)
      else if sigma <? nought
      then err (bad_sigma sigma)
      else with_horizon total_inventory eta lambda sigma
          (choose_horizon eta lambda sigma horizon_override)

  -- `(0..n).map(|_| chunk)`
  unfoldable pub equal_trades : ℕ → F → List F
  equal_trades zero chunk = []
  equal_trades (suc n) chunk = chunk ∷ equal_trades n chunk

  -- `if let Some(last) = trades.last_mut() { *last += d; }`
  unfoldable pub add_to_last : List F → F → List F
  add_to_last [] d = []
  add_to_last (x ∷ []) d = (x ⊕ d) ∷ []
  add_to_last (x ∷ y ∷ ys) d = x ∷ add_to_last (y ∷ ys) d

  -- The residue of the sum goes to the last trade.
  unfoldable pub absorb : F → List F → List F
  unfolding add_to_last fsum
  absorb total_inventory trades = add_to_last trades (total_inventory ⊖ fsum trades)

  unfoldable pub linear_schedule : AlmgrenChriss F → List F
  unfolding absorb equal_trades
  linear_schedule m =
      absorb m.total_inventory (equal_trades m.horizon (m.total_inventory ⊘ f.of_usize m.horizon))

  -- `inventory[k]` after the boundary conditions are forced, the last one last.
  unfoldable pub inventory : AlmgrenChriss F → F → F → ℕ → F
  inventory m kappa sinh_kt k =
      if k == m.horizon
      then nought
      else if k == 0
      then m.total_inventory
      else m.total_inventory ⊗ (f.sinh (kappa ⊗ (f.of_usize m.horizon ⊖ f.of_usize k)) ⊘ sinh_kt)

  -- The trades `inventory[k] - inventory[k + 1]` for the `n` steps from `k`.
  unfoldable pub differences : AlmgrenChriss F → F → F → ℕ → ℕ → List F
  unfolding inventory
  differences m kappa sinh_kt zero k = []
  differences m kappa sinh_kt (suc n) k =
      (inventory m kappa sinh_kt k ⊖ inventory m kappa sinh_kt (k + 1))
      ∷ differences m kappa sinh_kt n (k + 1)

  unfoldable pub sinh_schedule : AlmgrenChriss F → F → List F
  unfolding linear_schedule differences fabs
  sinh_schedule m kappa =
      let sinh_kt = f.sinh (kappa ⊗ f.of_usize m.horizon) in
      if fabs sinh_kt <? lit 1 15 || not (f.is_finite sinh_kt)
      then linear_schedule m
      else absorb m.total_inventory (differences m kappa sinh_kt m.horizon 0)

  unfoldable pub schedule : AlmgrenChriss F → List F
  unfolding sinh_schedule kappa
  schedule m =
      let k = kappa m.eta m.lambda m.sigma in
      if m.lambda =? nought || m.sigma =? nought || k <? lit 1 12
      then linear_schedule m
      else sinh_schedule m k
