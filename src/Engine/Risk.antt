-- ===== src/Engine/Risk.antt =====
-- src/engine/risk.rs: the slippage budget and its four limits.
pub mod Budget
use strata_exec.Prelude.{Result, ok, err, if◌then◌else◌}
use strata_exec.Float.{Float, ◌⊕◌, ◌⊖◌, ◌⊗◌, ◌⊘◌, ◌<?◌, ◌≤?◌, nought, fmin, fmax}

pub record RiskManager (F : Type 0) : Type 0 where
  pub total_notional : F
  pub max_slippage_pct : F
  pub max_slippage_budget : F
  pub executed_notional : F
  pub used_slippage : F
  pub emergency_reserve : F
  pub emergency_used : F

-- The refusal of a chunk; the source formats both numbers into a message.
pub data Denial (F : Type 0) : Type 0 where
  exceeds : F → F → Denial F

module _ {F : Type 0} ⦃f : Float F⦄ where
  unfoldable pub new_risk : F → F → F → RiskManager F
  new_risk total_notional max_slippage_pct reserve_frac =
      let max_slippage_budget = total_notional ⊗ max_slippage_pct in
      record {
        total_notional = total_notional;
        max_slippage_pct = max_slippage_pct;
        max_slippage_budget = max_slippage_budget;
        executed_notional = nought;
        used_slippage = nought;
        emergency_reserve = reserve_frac ⊗ max_slippage_budget;
        emergency_used = nought;
      }

  unfoldable pub remaining_budget : RiskManager F → F
  remaining_budget r = fmax (r.max_slippage_budget ⊖ r.used_slippage) nought

  unfoldable pub per_chunk_allocation : RiskManager F → F → F
  per_chunk_allocation r chunk_size =
      if r.total_notional ≤? nought
      then nought
      else chunk_size ⊘ r.total_notional ⊗ r.max_slippage_budget

  unfoldable pub cap_running : RiskManager F → F → F
  cap_running r chunk_size =
      fmax (r.max_slippage_pct ⊗ (r.executed_notional ⊕ chunk_size) ⊖ r.used_slippage) nought

  unfoldable pub allowed_for_next : RiskManager F → F → F
  unfolding remaining_budget per_chunk_allocation cap_running
  allowed_for_next r chunk_size =
      let remaining_emergency = fmax (r.emergency_reserve ⊖ r.emergency_used) nought in
      let per_chunk_ceiling = per_chunk_allocation r chunk_size ⊕ remaining_emergency in
      fmin (fmin per_chunk_ceiling (cap_running r chunk_size)) (remaining_budget r)

  -- The state after a chunk that was allowed.
  unfoldable pub booked : RiskManager F → F → F → RiskManager F
  booked r chunk_size predicted_slippage =
      let proportional = per_chunk_allocation r chunk_size in
      record r {
        executed_notional = r.executed_notional ⊕ chunk_size;
        used_slippage = r.used_slippage ⊕ predicted_slippage;
        emergency_used =
            if proportional <? predicted_slippage
            then r.emergency_used ⊕ (predicted_slippage ⊖ proportional)
            else r.emergency_used;
      }

  unfoldable pub request_execute_chunk :
      RiskManager F → F → F → RiskManager F × Result (Denial F) (Unit {0})
  unfolding booked
  request_execute_chunk r chunk_size predicted_slippage =
      let allowed = allowed_for_next r chunk_size in
      if allowed <? predicted_slippage
      then (r, err (exceeds predicted_slippage allowed))
      else (booked r chunk_size predicted_slippage, ok tt)
