-- ===== src/Analytics/Metrics.antt =====
-- src/analytics/metrics.rs: the cost accounting of one execution. The debug assertion of `decompose` is
-- not modelled.
pub mod Ledger
use Prim.Native.Nat.{suc}
use strata_exec.Prelude.{
  ℕ, Bool, true, false, ◌||◌, Option, none, some, List, [], ◌∷◌, ◌++◌, length, map, retain, ltb,
  ◌==◌, if◌then◌else◌,
}
use strata_exec.Prelude.Text.{Text, same}
use strata_exec.Float.{Float, ◌⊕◌, ◌⊖◌, ◌⊗◌, ◌⊘◌, ◌<?◌, ◌≤?◌, lit, nought, fabs}

pub record CostDecomposition (F : Type 0) : Type 0 where
  pub spread_cost : F
  pub temporary_impact : F
  pub permanent_impact : F
  pub timing_cost : F
  pub opportunity_cost : F
  pub total : F
  pub total_as_pct : F

pub record ExecutionMetrics (F : Type 0) : Type 0 where
  pub arrival_price : F
  pub initial_notional : F
  pub total_executed : F
  pub vwap_numerator : F
  pub cumulative_cost : F
  pub cost_sq_accumulator : F
  pub accumulated_risk_penalty : F
  pub trade_count : ℕ
  pub forced_liquidation_cost : F
  pub spread_cost_acc : F
  pub temporary_impact_acc : F
  pub permanent_impact_acc : F
  pub timing_cost_acc : F
  pub vpin_at_execution : List F
  pub per_trade_cost : List F
  pub regime_at_execution : List Text

-- The arguments of `record_trade`.
pub record Trade (F : Type 0) : Type 0 where
  pub quantity : F
  pub market_price : F
  pub slippage_cost : F
  pub transient_impact_fraction : F
  pub delta_permanent_fraction : F
  pub raw_price : F
  pub half_spread_proxy : F

abbrev pub and_then : {A B : Type 0} → Option A → (A → Option B) → Option B
and_then none k = none
and_then (some a) k = k a

module _ {F : Type 0} ⦃f : Float F⦄ where
  unfoldable pub new_metrics : F → F → ExecutionMetrics F
  new_metrics arrival_price initial_inventory = record {
    arrival_price = arrival_price;
    initial_notional = arrival_price ⊗ initial_inventory;
    total_executed = nought;
    vwap_numerator = nought;
    cumulative_cost = nought;
    cost_sq_accumulator = nought;
    accumulated_risk_penalty = nought;
    trade_count = 0;
    forced_liquidation_cost = nought;
    spread_cost_acc = nought;
    temporary_impact_acc = nought;
    permanent_impact_acc = nought;
    timing_cost_acc = nought;
    vpin_at_execution = [];
    per_trade_cost = [];
    regime_at_execution = [];
  }

  unfoldable pub record_trade : ExecutionMetrics F → Trade F → ExecutionMetrics F
  record_trade m t =
      let exec_price = t.market_price ⊕ t.slippage_cost in
      let realized_cost = t.quantity ⊗ (exec_price ⊖ m.arrival_price) in
      let spread = t.quantity ⊗ t.half_spread_proxy in
      let temporary = t.quantity ⊗ t.transient_impact_fraction ⊗ t.market_price in
      let permanent = t.quantity ⊗ t.delta_permanent_fraction ⊗ t.raw_price in
      let timing = realized_cost ⊖ spread ⊖ temporary ⊖ permanent in
      record m {
        total_executed = m.total_executed ⊕ t.quantity;
        vwap_numerator = m.vwap_numerator ⊕ t.quantity ⊗ exec_price;
        cumulative_cost = m.cumulative_cost ⊕ realized_cost;
        cost_sq_accumulator = m.cost_sq_accumulator ⊕ realized_cost ⊗ realized_cost;
        per_trade_cost = m.per_trade_cost ++ realized_cost ∷ [];
        trade_count = suc m.trade_count;
        spread_cost_acc = m.spread_cost_acc ⊕ spread;
        temporary_impact_acc = m.temporary_impact_acc ⊕ temporary;
        permanent_impact_acc = m.permanent_impact_acc ⊕ permanent;
        timing_cost_acc = m.timing_cost_acc ⊕ timing;
      }

  abbrev pub tiny : F
  tiny = lit 1 15

  -- The initial notional is too small to divide by.
  abbrev pub no_notional : ExecutionMetrics F → Bool
  no_notional m = fabs m.initial_notional <? tiny

  unfoldable pub total_as_pct_of : ExecutionMetrics F → F
  unfolding fabs
  total_as_pct_of m =
      if tiny <? fabs m.initial_notional
      then m.cumulative_cost ⊘ m.initial_notional ⊗ lit 100 0
      else nought

  unfoldable pub decompose : ExecutionMetrics F → Option (CostDecomposition F)
  unfolding total_as_pct_of
  decompose m =
      if m.trade_count == 0
      then none
      else some (record {
        spread_cost = m.spread_cost_acc;
        temporary_impact = m.temporary_impact_acc;
        permanent_impact = m.permanent_impact_acc;
        timing_cost = m.timing_cost_acc;
        opportunity_cost = m.forced_liquidation_cost;
        total = m.cumulative_cost;
        total_as_pct = total_as_pct_of m;
      })

  unfoldable pub record_forced_liquidation : ExecutionMetrics F → F → F → ExecutionMetrics F
  record_forced_liquidation m residual_qty last_price =
      let cost = residual_qty ⊗ (last_price ⊖ m.arrival_price) in
      record m {
        cumulative_cost = m.cumulative_cost ⊕ cost;
        forced_liquidation_cost = m.forced_liquidation_cost ⊕ cost;
        total_executed = m.total_executed ⊕ residual_qty;
        trade_count = suc m.trade_count;
      }

  unfoldable pub record_risk_step : ExecutionMetrics F → F → F → F → ExecutionMetrics F
  record_risk_step m inventory sigma dt =
      let dollar_inventory = inventory ⊗ m.arrival_price in
      record m {
        accumulated_risk_penalty =
            m.accumulated_risk_penalty ⊕ dollar_inventory ⊗ dollar_inventory ⊗ sigma ⊗ sigma ⊗ dt;
      }

  unfoldable pub record_vpin : ExecutionMetrics F → F → ExecutionMetrics F
  record_vpin m vpin = record m { vpin_at_execution = m.vpin_at_execution ++ vpin ∷ [] }

  unfoldable pub record_regime : ExecutionMetrics F → Text → ExecutionMetrics F
  record_regime m label = record m { regime_at_execution = m.regime_at_execution ++ label ∷ [] }

  unfoldable pub vwap : ExecutionMetrics F → Option F
  vwap m = if m.total_executed ≤? nought then none else some (m.vwap_numerator ⊘ m.total_executed)

  unfoldable pub avg_exec_price : ExecutionMetrics F → Option F
  unfolding vwap
  avg_exec_price m = vwap m

  unfoldable pub slippage_percent : ExecutionMetrics F → Option F
  unfolding fabs
  slippage_percent m =
      let notional_at_arrival = m.total_executed ⊗ m.arrival_price in
      if fabs notional_at_arrival <? tiny
      then none
      else some (m.cumulative_cost ⊘ notional_at_arrival ⊗ lit 100 0)

  unfoldable pub mean_cost : ExecutionMetrics F → Option F
  mean_cost m =
      if m.trade_count == 0 then none else some (m.cumulative_cost ⊘ f.of_usize m.trade_count)

  unfoldable pub cost_variance : ExecutionMetrics F → Option F
  cost_variance m =
      if m.trade_count == 0
      then none
      else (let n = f.of_usize m.trade_count in
          let mean = m.cumulative_cost ⊘ n in some (m.cost_sq_accumulator ⊘ n ⊖ mean ⊗ mean))

  unfoldable pub ac_objective : ExecutionMetrics F → F → Option F
  ac_objective m lambda =
      if m.trade_count == 0
      then none
      else some (m.cumulative_cost ⊕ lambda ⊗ m.accumulated_risk_penalty)

  unfoldable pub shortfall_percent : ExecutionMetrics F → Option F
  unfolding fabs
  shortfall_percent m =
      if no_notional m then none else some (m.cumulative_cost ⊘ m.initial_notional ⊗ lit 100 0)

  unfoldable pub mean_cost_percent : ExecutionMetrics F → Option F
  unfolding mean_cost fabs
  mean_cost_percent m =
      and_then (mean_cost m)
        (λ mean. if no_notional m then none else some (mean ⊘ m.initial_notional ⊗ lit 100 0))

  unfoldable pub risk_penalty_percent : ExecutionMetrics F → Option F
  unfolding fabs
  risk_penalty_percent m =
      if (m.trade_count == 0) || no_notional m
      then none
      else some (m.accumulated_risk_penalty ⊘ (m.initial_notional ⊗ m.initial_notional) ⊗ lit 100 0)

  unfoldable pub ac_objective_percent : ExecutionMetrics F → F → Option F
  unfolding shortfall_percent risk_penalty_percent
  ac_objective_percent m lambda = and_then (shortfall_percent m) (λ shortfall_pct.
      and_then (risk_penalty_percent m) (λ risk_pct. some (shortfall_pct ⊕ lambda ⊗ risk_pct)))
