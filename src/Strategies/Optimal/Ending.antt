-- ===== src/Strategies/Optimal/Ending.antt =====
-- src/strategies/optimal.rs: how the strategy's sale ends, sold out or given up.
use strata_exec.Prelude.{ℕ, ◌≤◌, ◌≡◌, true, false, some, List, length}
use strata_exec.Float.{Float, ◌⊖◌, lit, nought}
use strata_exec.Float.Laws.{IsRounding}
use strata_exec.Float.Order.{◌≼◌, ◌≺◌}
use strata_exec.Events.{SimEvent, order_filled, partial_fill, time_tick}
use strata_exec.Strategies.Optimal.{OptimalStrategy, ensure_schedule}

module _ {F : Type 0} where
  -- The quantity that an event reports as filled.
  pub data Reports : SimEvent F → F → Type 0 where
    in_full : {i : ℕ} {q p t : F} → Reports (order_filled i q p t) q
    in_part : {i : ℕ} {q m p : F} → Reports (partial_fill i q m p) q

module _ {F : Type 0} ⦃f : Float F⦄ ⦃r : IsRounding F⦄ where
  -- What an event at a market with volatility v makes of the sale.
  pub data Follows (s : OptimalStrategy F) (v : F) : SimEvent F → OptimalStrategy F → Type 0 where
    untouched :
        {e : SimEvent F} {s' : OptimalStrategy F}
        → s'.remaining_notional ≡ s.remaining_notional
        → s'.completed ≡ s.completed
        → Follows s v e s'
    reduced :
        {e : SimEvent F} {s' : OptimalStrategy F} {q : F}
        → Reports e q
        → s'.remaining_notional ≡ s.remaining_notional ⊖ q
        → lit 1 8 ≺ s'.remaining_notional
        → s'.completed ≡ s.completed
        → Follows s v e s'
    sold_out :
        {e : SimEvent F} {s' : OptimalStrategy F} {q : F}
        → Reports e q
        → s.remaining_notional ⊖ q ≼ lit 1 8
        → s'.remaining_notional ≡ nought
        → s'.completed ≡ true
        → Follows s v e s'
    given_up :
        {n : ℕ} {s' : OptimalStrategy F} {trades : List F}
        → s.completed ≡ false
        → (ensure_schedule s v).schedule ≡ some trades
        → length trades ≤ s.current_step
        → s'.remaining_notional ≡ nought
        → s'.completed ≡ true
        → Follows s v (time_tick n) s'
