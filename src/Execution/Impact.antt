-- ===== src/Execution/Impact.antt =====
-- src/execution/impact.rs and src/execution/transient_impact.rs: the square-root impact of one trade
-- and the decaying impact of the trades before it.
use strata_exec.Prelude.{◌||◌, List, [], ◌∷◌, ◌++◌, if◌then◌else◌, retain}
use strata_exec.Float.{Float, ◌⊕◌, ◌⊖◌, ◌⊗◌, ◌⊘◌, ◌<?◌, ◌≤?◌, lit, nought, fmax}

pub record SquareRootImpact (F : Type 0) : Type 0 where
  pub daily_volume : F
  pub impact_coefficient : F

pub record TradeEvent (F : Type 0) : Type 0 where
  pub timestamp : F
  pub base_impact : F

pub record TransientImpactTracker (F : Type 0) : Type 0 where
  pub history : List (TradeEvent F)
  pub rho : F

module _ {F : Type 0} ⦃f : Float F⦄ where
  unfoldable pub compute_impact : SquareRootImpact F → F → F → F
  compute_impact m quantity volatility =
      if quantity ≤? nought || m.daily_volume ≤? nought
      then nought
      else m.impact_coefficient ⊗ volatility ⊗ f.sqrt (quantity ⊘ m.daily_volume)

  unfoldable pub new_tracker : F → TransientImpactTracker F
  new_tracker rho = record { history = []; rho = rho }

  unfoldable pub record_trade : TransientImpactTracker F → F → F → TransientImpactTracker F
  unfolding retain
  record_trade t now base_impact =
      if base_impact ≤? nought
      then t
      else let threshold_dt = f.neg (f.ln (lit 1 8)) ⊘ t.rho in
        record t {
          history =
              retain (λ evt. now ⊖ evt.timestamp <? threshold_dt)
                (t.history ++ record { timestamp = now; base_impact = base_impact } ∷ []);
        }

  -- The loop of `current_impact`, with the total so far.
  unfoldable pub add_impacts : F → F → F → List (TradeEvent F) → F
  unfolding fmax
  add_impacts rho now total [] = total
  add_impacts rho now total (evt ∷ rest) =
      let dt = fmax (now ⊖ evt.timestamp) nought in
      add_impacts rho now (total ⊕ evt.base_impact ⊗ f.exp (f.neg rho ⊗ dt)) rest

  unfoldable pub current_impact : TransientImpactTracker F → F → F
  unfolding add_impacts
  current_impact t now = add_impacts t.rho now nought t.history
