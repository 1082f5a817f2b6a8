-- ===== src/Engine/Scheduler/Limits.antt =====
-- src/engine/scheduler.rs: the adaptive mode keeps the risk manager within its limits.
use strata_exec.Prelude.{
  ℕ, ◌-◌, ◌≡◌, refl, ◌∙◌, Bool, true, false, List, [], ◌∷◌, All, inl, inr, arith, Bool-cases,
}
use strata_exec.Float.{Float, ◌⊗◌, ◌⊘◌, lit, nought, fmax, clamp}
use strata_exec.Float.Laws.{IsRounding, IsExact}
use strata_exec.Float.Order.{
  ◌≼◌, ◌≺◌, IsNonneg, nought_parts, lit_nonneg, fmax-ge_right, clamp_bounds, mul-IsNonneg,
  div-IsNonneg, add-IsNonneg,
}
use strata_exec.Market.{LiquiditySnapshot, depth_metric}
use strata_exec.Strategies.Adaptive
use strata_exec.Strategies.Adaptive.{AdaptiveOptimalStrategy}
use strata_exec.Engine.Risk.Budget.{IsWithin, request-IsWithin}
use strata_exec.Engine.Scheduler.{
  ExecutionMode, Scheduler, book, book_step, ask_risk, on_block_adaptive_optimal, in_mode, on_block,
}
use strata_exec.Engine.Scheduler.Progress.{
  run_blocks, IsTidy, on_block-IsTidy, on_block-completed, on_block-open,
}

module _ {F : Type 0} ⦃f : Float F⦄ where
  -- What a step keeps besides the inventory.
  abbrev Kept : Scheduler F → Scheduler F → Type 0
  Kept s s' = (s'.risk ≡ s.risk) × (s'.mode ≡ s.mode) × (s'.adaptive ≡ s.adaptive)

  book_step-Kept : (b : Bool) (s : Scheduler F) (chunk : F) → Kept s (book_step b s chunk)
  unfolding book_step book
  book_step-Kept true s chunk = (refl, refl, refl)
  book_step-Kept false s chunk = (refl, refl, refl)

  asked-Kept :
      (s : Scheduler F) (chunk p : F)
      → ((ask_risk s chunk p).0.mode ≡ s.mode) × ((ask_risk s chunk p).0.adaptive ≡ s.adaptive)
  unfolding ask_risk
  asked-Kept s chunk p = (refl, refl)

  in_mode_adaptive :
      (s : Scheduler F) (v : F) (l : LiquiditySnapshot F) (mode : ExecutionMode)
      → mode ≡ ExecutionMode.adaptive_optimal
      → (in_mode mode s v l).0 ≡ on_block_adaptive_optimal s v l
  in_mode_adaptive s v l mode m = rw m (unfold in_mode in refl)

module _ {F : Type 0} ⦃f : Float F⦄ ⦃r : IsRounding F⦄ where
  -- A scheduler in the adaptive mode, within its risk limits, with impact coefficients that are not
  -- negative.
  pub record IsLimited (s : Scheduler F) : Type 0 where
    pub mode : s.mode ≡ ExecutionMode.adaptive_optimal
    pub within : IsWithin s.risk
    pub alpha : IsNonneg s.adaptive.alpha
    pub beta : IsNonneg s.adaptive.beta

  clamp-IsNonneg : (q left : F) → nought ≼ left → IsNonneg (clamp q nought left)
  clamp-IsNonneg q left h =
      let low = (clamp_bounds q nought left h).0 in omega (arith, low, nought_parts r)

  chunk-IsNonneg :
      (a : AdaptiveOptimalStrategy F) (v : F) (l : LiquiditySnapshot F) (left : F) (n : ℕ)
      → nought ≼ left
      → IsNonneg (Adaptive.compute_chunk a v l left n)
  unfolding Adaptive.compute_chunk
  chunk-IsNonneg a v l left n h = clamp-IsNonneg _ left h

  slippage-IsNonneg :
      (a : AdaptiveOptimalStrategy F) (chunk liq v : F)
      → IsNonneg a.alpha
      → IsNonneg a.beta
      → IsNonneg chunk
      → IsNonneg v
      → IsNonneg (Adaptive.predict_slippage a chunk liq v)
  unfolding Adaptive.predict_slippage
  slippage-IsNonneg a chunk liq v ha hb hc hv =
      let depth = fmax liq (lit 1 8) in
      let deep : nought ≺ depth = omega (
        arith,
        nought_parts r,
        fmax-ge_right liq (lit 1 8),
        r.lit_pos 1 8 (omega arith) (omega arith),
      ) in
      add-IsNonneg {F = F} (a.alpha ⊗ (chunk ⊘ depth)) (a.beta ⊗ v)
        (mul-IsNonneg a.alpha (chunk ⊘ depth) ha (div-IsNonneg chunk depth hc deep))
        (mul-IsNonneg a.beta v hb hv)

  module _ (x : IsExact F r) where
    ask-IsWithin :
        (s : Scheduler F) (chunk p : F)
        → IsWithin s.risk
        → IsNonneg chunk
        → IsNonneg p
        → IsWithin (ask_risk s chunk p).0.risk
    unfolding ask_risk
    ask-IsWithin s chunk p w hc hp = request-IsWithin x s.risk chunk p w hc hp

    adaptive-IsLimited :
        (s : Scheduler F) (v : F) (l : LiquiditySnapshot F)
        → nought ≼ s.remaining_notional
        → IsNonneg v
        → IsLimited s
        → IsLimited (on_block_adaptive_optimal s v l)
    unfolding on_block_adaptive_optimal
    adaptive-IsLimited s v l hr hv i =
        let n = s.initial_horizon - s.current_step in
        let q = Adaptive.compute_chunk s.adaptive v l s.remaining_notional n in
        let p = Adaptive.predict_slippage s.adaptive q (depth_metric l) v in
        let hq = chunk-IsNonneg s.adaptive v l s.remaining_notional n hr in
        let hp = slippage-IsNonneg s.adaptive q (depth_metric l) v i.alpha i.beta hq hv in
        let asked = ask_risk s q p in
        let (a, b, c) = book_step-Kept asked.1 asked.0 q in
        let (d, e) = asked-Kept s q p in
        record {
          mode = b ∙ d ∙ i.mode;
          within = rw a (ask-IsWithin s q p i.within hq hp);
          alpha = rw (c, e) i.alpha;
          beta = rw (c, e) i.beta;
        }

    on_block-IsLimited :
        (s : Scheduler F) (v : F) (l : LiquiditySnapshot F)
        → IsTidy s
        → IsNonneg v
        → IsLimited s
        → IsLimited (on_block s v l).0
    on_block-IsLimited s v l t hv i = elim (Bool-cases s.completed) [
      | inl e ↦ rw (on_block-completed s v l e) i
      | inr e ↦
          let left = t.going e in
          rw (on_block-open s v l e, in_mode_adaptive s v l s.mode i.mode)
            (adaptive-IsLimited s v l (omega (arith, nought_parts r, lit_nonneg r 1 8)) hv i)
    ]

    -- A scheduler in the adaptive mode that is in order, whose risk manager is within its limits and
    -- whose impact coefficients are not negative, keeps the risk manager within all its limits over
    -- any sequence of blocks with volatilities that are not negative, sums being exact.
    pub run_blocks-IsLimited :
        (blocks : List (F × LiquiditySnapshot F)) (s : Scheduler F)
        → All (λ b. IsNonneg b.0) blocks
        → IsTidy s
        → IsLimited s
        → IsWithin (run_blocks s blocks).risk
    unfolding run_blocks
    run_blocks-IsLimited [] s h t i = i.within
    run_blocks-IsLimited ((v, l) ∷ rest) s (h, hs) t i =
        run_blocks-IsLimited rest (on_block s v l).0 hs (on_block-IsTidy s v l t)
          (on_block-IsLimited s v l t h i)
