-- ===== src/Market/Volatility.antt =====
-- src/market/volatility.rs: the rolling-window volatility estimator with running sums.
pub mod Window
use strata_exec.Prelude.{
  ℕ, suc, Option, none, some, List, [], ◌∷◌, ◌++◌, ◌==◌, ltb, if◌then◌else◌, length,
}
use strata_exec.Float.{Float, ◌⊕◌, ◌⊖◌, ◌⊗◌, ◌⊘◌, nought, fmax}

pub record VolatilityEstimator (F : Type 0) : Type 0 where
  pub window : ℕ
  pub returns : List F
  pub sum : F
  pub sum_sq : F

module _ {F : Type 0} ⦃f : Float F⦄ where
  unfoldable pub new_estimator : ℕ → VolatilityEstimator F
  new_estimator window = record { window = window; returns = []; sum = nought; sum_sq = nought }

  -- `if let Some(old) = self.returns.pop_front()`, with what follows it.
  unfoldable pub evict : VolatilityEstimator F → List F → VolatilityEstimator F
  evict e [] = e
  evict e (old ∷ rest) = record e {
    returns = rest;
    sum = e.sum ⊖ old;
    sum_sq = e.sum_sq ⊖ old ⊗ old;
  }

  unfoldable pub update : VolatilityEstimator F → F → VolatilityEstimator F
  unfolding evict
  update e value =
      let e' = if length e.returns == e.window then evict e e.returns else e in
      record e' {
        returns = e'.returns ++ value ∷ [];
        sum = e'.sum ⊕ value;
        sum_sq = e'.sum_sq ⊕ value ⊗ value;
      }

  unfoldable pub current : VolatilityEstimator F → Option F
  current e =
      let n = length e.returns in
      let n_f = f.of_usize n in
      let mean = e.sum ⊘ n_f in
      let variance = e.sum_sq ⊘ n_f ⊖ mean ⊗ mean in
      if ltb n 2 then none else some (f.sqrt (fmax variance nought))
