-- ===== src/Examples/Accounts.antt =====
-- The cost accounting at concrete inputs.
use strata_exec.Prelude.{All, map, length, List, [], ◌∷◌, ◌≡◌, refl}
use strata_exec.Prelude.Int.{ℤ}
use strata_exec.Prelude.Text.{codes, same}
use strata_exec.Float.{lit}
use strata_exec.Float.Fixed.{fixed_float, fixed_rounding, fixed-IsExact}
use strata_exec.Analytics.Metrics.{ExecutionMetrics, Trade, new_metrics, decompose}
use strata_exec.Analytics.Metrics.Ledger.{
  Recording, a_trade, a_liquidation, a_risk_step, a_vpin, a_regime, apply_all, IsBalanced,
  Decomposes, decompose-adds_up,
}
use strata_exec.Analytics.Breakdown.{regime_distribution}
use strata_exec.Analytics.Breakdown.Weights.{weight, occurrences}
use strata_exec.Analytics.Breakdown.Distinct.{AreDistinct}
use strata_exec.Analytics.Breakdown.Counts.{counts, with_share, Descends, regime_distribution_lem}

abbrev sale : Trade ℤ
sale = record {
  quantity = lit 3 0;
  market_price = lit 99 0;
  slippage_cost = lit 5 1;
  transient_impact_fraction = lit 1 3;
  delta_permanent_fraction = lit 2 3;
  raw_price = lit 100 0;
  half_spread_proxy = lit 1 2;
}

abbrev session : List (Recording ℤ)
session =
    a_trade sale
    ∷ a_vpin (lit 2 1)
    ∷ a_regime (codes "Normal")
    ∷ a_risk_step (lit 7 0) (lit 2 1) (lit 1 2)
    ∷ a_trade sale
    ∷ a_regime (codes "HighVol")
    ∷ a_trade sale
    ∷ a_regime (codes "HighVol")
    ∷ a_liquidation (lit 1 0) (lit 98 0)
    ∷ []

abbrev accounts : ExecutionMetrics ℤ
accounts = apply_all (new_metrics (lit 100 0) (lit 10 0)) session

decompose-adds_up_example : IsBalanced accounts × Decomposes accounts (decompose accounts)
decompose-adds_up_example = decompose-adds_up fixed-IsExact (lit 100 0) (lit 10 0) session

regime_distribution_lem_example :
    let labels = accounts.regime_at_execution in
    let out = counts (regime_distribution accounts) in
    AreDistinct out
    × All (λ e. e.1 ≡ occurrences (same e.0) labels) out
    × (regime_distribution accounts ≡ map (with_share (length labels)) out)
    × (weight (same (codes "HighVol")) out ≡ occurrences (same (codes "HighVol")) labels)
    × Descends out
regime_distribution_lem_example = regime_distribution_lem accounts (same (codes "HighVol"))

-- Two labels of one kind come before one of the other.
ranks : counts (regime_distribution accounts) ≡ (codes "HighVol", 2) ∷ (codes "Normal", 1) ∷ []
unfolding apply_all regime_distribution new_metrics
ranks = refl
