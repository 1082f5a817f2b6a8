-- ===== src/Engine/Risk/Budget.antt =====
-- The four limits of src/engine/risk.rs.
use strata_exec.Prelude.{
  ◌≡◌, refl, true, false, List, [], ◌∷◌, All, ok, err, inl, inr, arith, Bool-cases,
}
use strata_exec.Prelude.Int.{+ℤ_parts, -ℤ_parts}
use strata_exec.Float.{Float, ◌⊕◌, ◌⊖◌, ◌⊗◌, ◌<?◌, nought, fmin, fmax}
use strata_exec.Float.Laws.{IsRounding, IsExact}
use strata_exec.Float.Order.{
  ◌≼◌, IsNonneg, nought_parts, not_lt→≼, fmin-le_left, fmin-le_right, fmax-le, le-add_right,
  add-IsNonneg, mul-IsNonneg,
}
use strata_exec.Engine.Risk.{
  RiskManager, exceeds, new_risk, remaining_budget, per_chunk_allocation, cap_running,
  allowed_for_next, booked, request_execute_chunk,
}

module _ {F : Type 0} ⦃f : Float F⦄ where
  -- A request is refused exactly when the predicted slippage is greater than what is allowed; the
  -- manager is then unchanged, and the refusal quotes the two numbers.
  pub request_execute_chunk_refused :
      (m : RiskManager F) (chunk p : F)
      → allowed_for_next m chunk <? p ≡ true
      → request_execute_chunk m chunk p ≡ (m, err (exceeds p (allowed_for_next m chunk)))
  unfolding request_execute_chunk
  request_execute_chunk_refused m chunk p h = rw h refl

  request_allowed :
      (m : RiskManager F) (chunk p : F)
      → allowed_for_next m chunk <? p ≡ false
      → request_execute_chunk m chunk p ≡ (booked m chunk p, ok tt)
  unfolding request_execute_chunk
  request_allowed m chunk p h = rw h refl

  -- The managers after each of a sequence of requests, refused or not.
  unfoldable pub request_all : RiskManager F → List (F × F) → RiskManager F
  request_all m [] = m
  request_all m ((chunk, p) ∷ rest) = request_all (request_execute_chunk m chunk p).0 rest

module _ {F : Type 0} ⦃f : Float F⦄ ⦃r : IsRounding F⦄ where
  -- The invariant: the used slippage is within the budget and within the running average, and the
  -- emergency draws are within the reserve.
  pub record IsWithin (m : RiskManager F) : Type 0 where
    pub rate : IsNonneg m.max_slippage_pct
    pub executed : IsNonneg m.executed_notional
    pub used : IsNonneg m.used_slippage
    pub budget : m.used_slippage ≼ m.max_slippage_budget
    pub average : m.used_slippage ≼ m.max_slippage_pct ⊗ m.executed_notional
    pub reserve : m.emergency_used ≼ m.emergency_reserve

  -- What is allowed for a chunk is at most the remaining budget, at most the cap of the running average,
  -- and at most the chunk's proportional share with what is left of the reserve.
  allowed_for_next_bounds :
      (m : RiskManager F) (chunk : F)
      → let allowed = allowed_for_next m chunk in
        (allowed ≼ remaining_budget m)
        × (allowed ≼ cap_running m chunk)
        × (allowed
            ≼ per_chunk_allocation m chunk ⊕ fmax (m.emergency_reserve ⊖ m.emergency_used) nought)
  unfolding allowed_for_next
  allowed_for_next_bounds m chunk =
      let emergency = fmax (m.emergency_reserve ⊖ m.emergency_used) nought in
      let ceiling = per_chunk_allocation m chunk ⊕ emergency in
      let two = fmin ceiling (cap_running m chunk) in
      let low = fmin-le_left two (remaining_budget m) in
      (
        fmin-le_right two (remaining_budget m),
        omega (arith, low, fmin-le_right ceiling (cap_running m chunk)),
        omega (arith, low, fmin-le_left ceiling (cap_running m chunk)),
      )

  -- A new manager, of a notional, a rate and a reserve fraction that are not negative, is within its
  -- limits.
  pub new_risk-IsWithin :
      (total pct frac : F)
      → IsNonneg total
      → IsNonneg pct
      → IsNonneg frac
      → IsWithin (new_risk total pct frac)
  unfolding new_risk
  new_risk-IsWithin total pct frac ht hp hf =
      let zero_nonneg : IsNonneg {F = F} nought = omega (arith, nought_parts r) in
      let budget = mul-IsNonneg total pct ht hp in
      record {
        rate = hp;
        executed = zero_nonneg;
        used = zero_nonneg;
        budget = omega (arith, nought_parts r, budget);
        average = omega (arith, nought_parts r, mul-IsNonneg pct nought hp zero_nonneg);
        reserve = omega (arith, nought_parts r, mul-IsNonneg frac (total ⊗ pct) hf budget);
      }

  module _ (x : IsExact F r) where
    -- `max(a - b, 0)` added to `b` does not pass what bounds both `a` and `b`.
    headroom : (a b c p : F) → p ≼ fmax (a ⊖ b) nought → b ≼ c → a ≼ c → b ⊕ p ≼ c
    headroom a b c p h hb ha =
        let below : fmax (a ⊖ b) nought ≼ c ⊖ b =
          fmax-le (a ⊖ b) nought (c ⊖ b)
            (rw (x.sub-val a b, x.sub-val c b)
              (omega (arith, -ℤ_parts (r.val a) (r.val b), -ℤ_parts (r.val c) (r.val b))))
            (rw (x.sub-val c b) (omega (arith, nought_parts r, -ℤ_parts (r.val c) (r.val b)))) in
        let fits : p ≼ c ⊖ b = omega arith in
        let fits' = rw (x.sub-val c b) at fits in
        rw (x.add-val b p)
          (omega (arith, fits', +ℤ_parts (r.val b) (r.val p), -ℤ_parts (r.val c) (r.val b)))

    module _ (m : RiskManager F) (chunk p : F) (w : IsWithin m) (hc : IsNonneg chunk)
        (hp : IsNonneg p) (fits : p ≼ allowed_for_next m chunk) where
      booked-budget : m.used_slippage ⊕ p ≼ m.max_slippage_budget
      unfolding remaining_budget
      booked-budget =
          headroom m.max_slippage_budget m.used_slippage m.max_slippage_budget p
            (omega (arith, (allowed_for_next_bounds m chunk).0)) w.budget (omega arith)

      booked-average : m.used_slippage ⊕ p ≼ m.max_slippage_pct ⊗ (m.executed_notional ⊕ chunk)
      unfolding cap_running
      booked-average =
          let spent = m.max_slippage_pct ⊗ (m.executed_notional ⊕ chunk) in
          let grows =
            r.mul_mono m.max_slippage_pct m.executed_notional (m.executed_notional ⊕ chunk) w.rate
              (le-add_right m.executed_notional chunk hc) in
          headroom spent m.used_slippage spent p
            (omega (arith, (allowed_for_next_bounds m chunk).1)) (omega (arith, w.average, grows))
            (omega arith)

      booked-reserve : m.emergency_used ⊕ (p ⊖ per_chunk_allocation m chunk) ≼ m.emergency_reserve
      booked-reserve =
          let share = per_chunk_allocation m chunk in
          let spare = fmax (m.emergency_reserve ⊖ m.emergency_used) nought in
          let below : p ≼ share ⊕ spare = omega (arith, (allowed_for_next_bounds m chunk).2) in
          let below' = rw (x.add-val share spare) at below in
          headroom m.emergency_reserve m.emergency_used m.emergency_reserve (p ⊖ share)
            (rw (x.sub-val p share) (
              omega (
                arith,
                below',
                +ℤ_parts (r.val share) (r.val spare),
                -ℤ_parts (r.val p) (r.val share),
              )))
            w.reserve (omega arith)

      booked-IsWithin : IsWithin (booked m chunk p)
      unfolding booked
      booked-IsWithin = record {
        rate = w.rate;
        executed = add-IsNonneg m.executed_notional chunk w.executed hc;
        used = add-IsNonneg m.used_slippage p w.used hp;
        budget = booked-budget;
        average = booked-average;
        reserve = elim (Bool-cases (per_chunk_allocation m chunk <? p)) [
          | inl e ↦ rw e booked-reserve
          | inr e ↦ rw e w.reserve
        ];
      }

    -- A request, refused or not, keeps the manager within all four limits.
    pub request-IsWithin :
        (m : RiskManager F) (chunk p : F)
        → IsWithin m
        → IsNonneg chunk
        → IsNonneg p
        → IsWithin (request_execute_chunk m chunk p).0
    request-IsWithin m chunk p w hc hp = elim (Bool-cases (allowed_for_next m chunk <? p)) [
      | inl e ↦ rw (request_execute_chunk_refused m chunk p e) w
      | inr e ↦
          rw (request_allowed m chunk p e)
            (booked-IsWithin m chunk p w hc hp (not_lt→≼ (allowed_for_next m chunk) p e))
    ]

    -- However many chunks are requested, with sizes and slippages that are not negative, the used
    -- slippage stays within the budget and within the rate times the executed notional, and the
    -- emergency draws within the reserve, sums being exact.
    pub request_all-IsWithin :
        (requests : List (F × F)) (m : RiskManager F)
        → All (λ q. IsNonneg q.0 × IsNonneg q.1) requests
        → IsWithin m
        → IsWithin (request_all m requests)
    unfolding request_all
    request_all-IsWithin [] m h w = w
    request_all-IsWithin ((chunk, p) ∷ rest) m (h, hs) w =
        request_all-IsWithin rest (request_execute_chunk m chunk p).0 hs
          (request-IsWithin m chunk p w h.0 h.1)
