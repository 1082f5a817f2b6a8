-- ===== src/Analytics/Metrics/Ledger.antt =====
-- src/analytics/metrics.rs: what the accumulators hold after any sequence of recordings.
use strata_exec.Prelude.{
  ℕ, ◌+◌, ◌<◌, ◌≤◌, ◌≡◌, refl, false, Option, none, some, List, [], ◌∷◌, length, ◌==◌, equal→eq,
  inl, inr, Bool-cases, arith, length-append,
}
use strata_exec.Prelude.Int.{pos, pos_part, neg_part}
use strata_exec.Prelude.Text.{Text}
use strata_exec.Float.{Float, ◌⊕◌, ◌⊖◌, ◌⊗◌}
use strata_exec.Float.Laws.{IsRounding, IsExact}
use strata_exec.Float.Order.{nought_parts}
use strata_exec.Float.Exact.{Balance, total, total-append_one, add_parts, sub_parts}
use strata_exec.Analytics.Metrics.{
  ExecutionMetrics, CostDecomposition, Trade, new_metrics, record_trade, record_forced_liquidation,
  record_risk_step, record_vpin, record_regime, decompose,
}

unequal_pos : (n : ℕ) → (n == 0) ≡ false → 0 < n
unequal_pos n h = ground arith

-- One call of a recording method.
pub data Recording (F : Type 0) : Type 0 where
  a_trade : Trade F → Recording F
  a_liquidation : F → F → Recording F
  a_risk_step : F → F → F → Recording F
  a_vpin : F → Recording F
  a_regime : Text → Recording F

module _ {F : Type 0} ⦃f : Float F⦄ where
  unfoldable pub apply : ExecutionMetrics F → Recording F → ExecutionMetrics F
  unfolding record_trade record_forced_liquidation record_risk_step record_vpin record_regime
  apply m (a_trade t) = record_trade m t
  apply m (a_liquidation residual_qty last_price) =
      record_forced_liquidation m residual_qty last_price
  apply m (a_risk_step inventory sigma dt) = record_risk_step m inventory sigma dt
  apply m (a_vpin vpin) = record_vpin m vpin
  apply m (a_regime label) = record_regime m label

  unfoldable pub apply_all : ExecutionMetrics F → List (Recording F) → ExecutionMetrics F
  unfolding apply
  apply_all m [] = m
  apply_all m (c ∷ cs) = apply_all (apply m c) cs

module _ {F : Type 0} ⦃f : Float F⦄ ⦃r : IsRounding F⦄ where
  abbrev gain : F → ℕ
  gain a = pos_part (r.val a)

  abbrev loss : F → ℕ
  loss a = neg_part (r.val a)

  -- Five costs add up to a sixth, exactly.
  abbrev Adds : F → F → F → F → F → F → Type 0
  Adds a b c d e sum =
      gain a + gain b + gain c + gain d + gain e + loss sum
      ≡ gain sum + loss a + loss b + loss c + loss d + loss e

  -- The components add up to the cost, the cost is what the trades and the liquidations cost, and each
  -- trade is counted.
  pub record IsBalanced (m : ExecutionMetrics F) : Type 0 where
    pub components :
        Adds m.spread_cost_acc m.temporary_impact_acc m.permanent_impact_acc m.timing_cost_acc
          m.forced_liquidation_cost m.cumulative_cost
    pub costs :
        Balance
          (r.val m.cumulative_cost)
          (pos 0)
          (total m.per_trade_cost)
          (r.val m.forced_liquidation_cost)
    pub counted : length m.per_trade_cost ≤ m.trade_count

  -- What a decomposition shows of the accounts.
  abbrev pub Decomposes : ExecutionMetrics F → Option (CostDecomposition F) → Type 0
  Decomposes m none = m.trade_count ≡ 0
  Decomposes m (some d) =
      (0 < m.trade_count)
      × (d.total ≡ m.cumulative_cost)
      × Adds d.spread_cost d.temporary_impact d.permanent_impact d.timing_cost d.opportunity_cost
          d.total

  new_metrics-IsBalanced : (arrival inventory : F) → IsBalanced (new_metrics arrival inventory)
  unfolding new_metrics total
  new_metrics-IsBalanced arrival inventory = record {
    components = omega (arith, nought_parts r);
    costs = omega (arith, nought_parts r);
    counted = omega arith;
  }

module _ {F : Type 0} ⦃f : Float F⦄ ⦃r : IsRounding F⦄ (x : IsExact F r) where
  -- What is left of a cost once three parts are taken from it makes the four add up to it again.
  residue_parts :
      (a b c d : F)
      → let rest = a ⊖ b ⊖ c ⊖ d in
        gain b + gain c + gain d + gain rest + loss a
        ≡ gain a + loss b + loss c + loss d + loss rest
  residue_parts a b c d =
      omega (arith, sub_parts x a b, sub_parts x (a ⊖ b) c, sub_parts x (a ⊖ b ⊖ c) d)

  record_trade-IsBalanced :
      (m : ExecutionMetrics F) (t : Trade F) → IsBalanced m → IsBalanced (record_trade m t)
  unfolding record_trade
  record_trade-IsBalanced m t h =
      let realized = t.quantity ⊗ (t.market_price ⊕ t.slippage_cost ⊖ m.arrival_price) in
      let spread = t.quantity ⊗ t.half_spread_proxy in
      let temporary = t.quantity ⊗ t.transient_impact_fraction ⊗ t.market_price in
      let permanent = t.quantity ⊗ t.delta_permanent_fraction ⊗ t.raw_price in
      let cost = add_parts x m.cumulative_cost realized in
      record {
        components = omega (
          arith,
          h.components,
          cost,
          add_parts x m.spread_cost_acc spread,
          add_parts x m.temporary_impact_acc temporary,
          add_parts x m.permanent_impact_acc permanent,
          add_parts x m.timing_cost_acc (realized ⊖ spread ⊖ temporary ⊖ permanent),
          residue_parts realized spread temporary permanent,
        );
        costs = omega (arith, h.costs, cost, total-append_one m.per_trade_cost realized);
        counted = omega (arith, h.counted, length-append m.per_trade_cost (realized ∷ []));
      }

  record_forced_liquidation-IsBalanced :
      (m : ExecutionMetrics F) (residual_qty last_price : F)
      → IsBalanced m
      → IsBalanced (record_forced_liquidation m residual_qty last_price)
  unfolding record_forced_liquidation
  record_forced_liquidation-IsBalanced m residual_qty last_price h =
      let cost = residual_qty ⊗ (last_price ⊖ m.arrival_price) in
      let sum = add_parts x m.cumulative_cost cost in
      let forced = add_parts x m.forced_liquidation_cost cost in
      record {
        components = omega (arith, h.components, sum, forced);
        costs = omega (arith, h.costs, sum, forced);
        counted = omega (arith, h.counted);
      }

  apply-IsBalanced :
      (m : ExecutionMetrics F) (c : Recording F) → IsBalanced m → IsBalanced (apply m c)
  unfolding apply record_risk_step record_vpin record_regime
  apply-IsBalanced m (a_trade t) h = record_trade-IsBalanced m t h
  apply-IsBalanced m (a_liquidation residual_qty last_price) h =
      record_forced_liquidation-IsBalanced m residual_qty last_price h
  apply-IsBalanced m (a_risk_step inventory sigma dt) h = record {
    components = h.components;
    costs = h.costs;
    counted = h.counted;
  }
  apply-IsBalanced m (a_vpin vpin) h = record {
    components = h.components;
    costs = h.costs;
    counted = h.counted;
  }
  apply-IsBalanced m (a_regime label) h = record {
    components = h.components;
    costs = h.costs;
    counted = h.counted;
  }

  apply_all-IsBalanced :
      (m : ExecutionMetrics F) (cs : List (Recording F))
      → IsBalanced m
      → IsBalanced (apply_all m cs)
  unfolding apply_all
  apply_all-IsBalanced m [] h = h
  apply_all-IsBalanced m (c ∷ cs) h = apply_all-IsBalanced (apply m c) cs (apply-IsBalanced m c h)

  decompose-Decomposes : (m : ExecutionMetrics F) → IsBalanced m → Decomposes m (decompose m)
  unfolding decompose
  decompose-Decomposes m h = elim (Bool-cases (m.trade_count == 0)) [
    | inl e ↦ rw e (equal→eq m.trade_count 0 e)
    | inr e ↦ rw e (unequal_pos m.trade_count e, refl, h.components)
  ]

  -- The accounts of a new tracker after any sequence of its recording methods, sums being exact. The
  -- accumulated components (spread, temporary, permanent, timing, forced liquidation) add up to the
  -- cumulative cost, which is the exact sum of the costs of the trades and of the forced liquidations, and
  -- no fewer trades are counted than have a cost. `decompose` gives `none` where no trade is counted, and
  -- otherwise five components that add up to its total, the cumulative cost.
  pub decompose-adds_up :
      (arrival inventory : F) (cs : List (Recording F))
      → let m = apply_all (new_metrics arrival inventory) cs in
        IsBalanced m × Decomposes m (decompose m)
  decompose-adds_up arrival inventory cs =
      let h =
        apply_all-IsBalanced (new_metrics arrival inventory) cs
          (new_metrics-IsBalanced arrival inventory) in
      (h, decompose-Decomposes (apply_all (new_metrics arrival inventory) cs) h)
