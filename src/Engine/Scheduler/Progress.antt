-- ===== src/Engine/Scheduler/Progress.antt =====
-- src/engine/scheduler.rs: when the scheduler is completed.
use strata_exec.Prelude.{
  ℕ, ◌≡◌, refl, sym, ◌∙◌, Bool, true, false, Option, none, some, List, [], ◌∷◌, inl, inr,
  Bool-cases, Result, ok, err,
}
use strata_exec.Float.{Float, ◌⊖◌, ◌≤?◌, lit, nought}
use strata_exec.Float.Laws.{IsRounding}
use strata_exec.Float.Order.{◌≺◌, not_le→≺}
use strata_exec.Market.{LiquiditySnapshot}
use strata_exec.Strategies.AlmgrenChriss.{AlmgrenChriss, ModelError}
use strata_exec.Strategies.RegimeAc.{RegimeAcStrategy}
use strata_exec.Engine.Risk.{RiskManager}
use strata_exec.Engine.Scheduler.{
  new_scheduler, ExecutionMode, Scheduler, book, book_or, book_step, ask_risk, on_block_twap,
  on_block_heuristic, follow_schedule, with_model, with_schedule, step_schedule, after_schedule,
  on_block_optimal, on_block_adaptive_optimal, step_regime, in_mode, on_block,
}

true≢false : ◌≡◌ {A = Bool} true false → ⊥
true≢false p = cc

module _ {F : Type 0} ⦃f : Float F⦄ where
  -- The scheduler after a sequence of blocks, each a volatility and a snapshot.
  unfoldable pub run_blocks : Scheduler F → List (F × LiquiditySnapshot F) → Scheduler F
  run_blocks s [] = s
  run_blocks s ((volatility, liquidity) ∷ rest) =
      run_blocks (on_block s volatility liquidity).0 rest

  pub on_block-completed :
      (s : Scheduler F) (v : F) (l : LiquiditySnapshot F)
      → s.completed ≡ true
      → on_block s v l ≡ (s, ok tt)
  unfolding on_block
  on_block-completed s v l e = simp e

  pub on_block-open :
      (s : Scheduler F) (v : F) (l : LiquiditySnapshot F)
      → s.completed ≡ false
      → on_block s v l ≡ in_mode s.mode s v l
  unfolding on_block
  on_block-open s v l e = simp e

module _ {F : Type 0} ⦃f : Float F⦄ ⦃r : IsRounding F⦄ where
  -- The sale is completed exactly when nothing remains, and what remains is otherwise above 1e-8.
  pub record IsTidy (s : Scheduler F) : Type 0 where
    pub done : s.completed ≡ true → s.remaining_notional ≡ nought
    pub going : s.completed ≡ false → lit 1 8 ≺ s.remaining_notional

  -- Two schedulers between which nothing was sold.
  abbrev Unsold : Scheduler F → Scheduler F → Type 0
  Unsold s s' = (s'.remaining_notional ≡ s.remaining_notional) × (s'.completed ≡ s.completed)

  IsTidy-Unsold : {s s' : Scheduler F} → Unsold s s' → IsTidy s → IsTidy s'
  IsTidy-Unsold (a, b) t = record {
    done = λ e. rw a (t.done (rw b at e));
    going = λ e. rw a (t.going (rw b at e));
  }

  book-IsTidy : (s : Scheduler F) (chunk : F) → s.completed ≡ false → IsTidy (book s chunk)
  unfolding book
  book-IsTidy s chunk e = elim (Bool-cases (s.remaining_notional ⊖ chunk ≤? lit 1 8)) [
    | inl over ↦ simp over (record { done = λ _. refl; going = λ p. absurd (true≢false p) })
    | inr more ↦ simp more (record {
      done = λ p. absurd (true≢false (sym p ∙ e));
      going = λ _. not_le→≺ {F = F} (s.remaining_notional ⊖ chunk) (lit 1 8) more;
    })
  ]

  book_or-IsTidy :
      (b : Bool) (s : Scheduler F) (chunk : F) (other : Scheduler F)
      → s.completed ≡ false
      → IsTidy other
      → IsTidy (book_or b s chunk other)
  unfolding book_or
  book_or-IsTidy true s chunk other e t = book-IsTidy s chunk e
  book_or-IsTidy false s chunk other e t = t

  book_step-IsTidy :
      (b : Bool) (s : Scheduler F) (chunk : F)
      → s.completed ≡ false
      → IsTidy s
      → IsTidy (book_step b s chunk)
  unfolding book_step
  book_step-IsTidy true s chunk e t =
      IsTidy-Unsold {s = book s chunk} (refl, refl) (book-IsTidy s chunk e)
  book_step-IsTidy false s chunk e t = t

  twap-IsTidy : (s : Scheduler F) → s.completed ≡ false → IsTidy s → IsTidy (on_block_twap s)
  unfolding on_block_twap
  twap-IsTidy s e t = book_or-IsTidy _ s _ s e t

  heuristic-IsTidy :
      (s : Scheduler F) (v : F) (l : LiquiditySnapshot F)
      → s.completed ≡ false
      → IsTidy s
      → IsTidy (on_block_heuristic s v l)
  unfolding on_block_heuristic ask_risk
  heuristic-IsTidy s v l e t =
      book_or-IsTidy _ _ _ _ e (book_or-IsTidy _ _ _ _ e (IsTidy-Unsold {s = s} (refl, refl) t))

  adaptive-IsTidy :
      (s : Scheduler F) (v : F) (l : LiquiditySnapshot F)
      → s.completed ≡ false
      → IsTidy s
      → IsTidy (on_block_adaptive_optimal s v l)
  unfolding on_block_adaptive_optimal ask_risk
  adaptive-IsTidy s v l e t = book_step-IsTidy _ _ _ e (IsTidy-Unsold {s = s} (refl, refl) t)

  regime-IsTidy :
      (s : Scheduler F) (v : F) (o : Option (RegimeAcStrategy F))
      → s.completed ≡ false
      → IsTidy s
      → IsTidy (step_regime s v o)
  unfolding step_regime
  regime-IsTidy s v none e t = t
  regime-IsTidy s v (some rac) e t = book_or-IsTidy _ _ _ _ e (IsTidy-Unsold {s = s} (refl, refl) t)

  follow-IsTidy :
      (s : Scheduler F) (v : F) (l : LiquiditySnapshot F) (trades : List F) (o : Option F)
      → s.completed ≡ false
      → IsTidy s
      → IsTidy (follow_schedule s v l trades o)
  unfolding follow_schedule ask_risk
  follow-IsTidy s v l trades none e t = record {
    done = λ _. refl;
    going = λ p. absurd (true≢false p);
  }
  follow-IsTidy s v l trades (some trade) e t =
      book_step-IsTidy _ _ _ e (IsTidy-Unsold {s = s} (refl, refl) t)

  step_schedule-IsTidy :
      (s : Scheduler F) (v : F) (l : LiquiditySnapshot F) (o : Option (List F))
      → s.completed ≡ false
      → IsTidy s
      → IsTidy (step_schedule s v l o)
  unfolding step_schedule
  step_schedule-IsTidy s v l none e t = t
  step_schedule-IsTidy s v l (some trades) e t = follow-IsTidy s v l trades _ e t

  after_ok-IsTidy :
      (s s' : Scheduler F) (v : F) (l : LiquiditySnapshot F)
      → s'.completed ≡ false
      → IsTidy s'
      → IsTidy (after_schedule s v l (ok s')).0
  unfolding after_schedule
  after_ok-IsTidy s s' v l e t = step_schedule-IsTidy s' v l s'.execution_schedule e t

  failed-IsTidy :
      (s : Scheduler F) (v : F) (l : LiquiditySnapshot F) (x : ModelError F)
      → IsTidy s
      → IsTidy (after_schedule s v l (err x)).0
  unfolding after_schedule
  failed-IsTidy s v l x t = t

  with_model-IsTidy :
      (s : Scheduler F) (v : F) (l : LiquiditySnapshot F)
      → (m : Result (ModelError F) (AlmgrenChriss F)) → s.completed ≡ false
      → IsTidy s
      → IsTidy (after_schedule s v l (with_model s m)).0
  unfolding with_model
  with_model-IsTidy s v l (err x) e t = failed-IsTidy s v l x t
  with_model-IsTidy s v l (ok m) e t =
      after_ok-IsTidy s _ v l e (IsTidy-Unsold {s = s} (refl, refl) t)

  optimal-IsTidy :
      (s : Scheduler F) (v : F) (l : LiquiditySnapshot F) (o : Option (List F))
      → s.completed ≡ false
      → IsTidy s
      → IsTidy (after_schedule s v l (with_schedule s v o)).0
  unfolding with_schedule
  optimal-IsTidy s v l (some trades) e t = after_ok-IsTidy s s v l e t
  optimal-IsTidy s v l none e t = with_model-IsTidy s v l _ e t

  in_mode-IsTidy :
      (mode : ExecutionMode) (s : Scheduler F) (v : F) (l : LiquiditySnapshot F)
      → s.completed ≡ false
      → IsTidy s
      → IsTidy (in_mode mode s v l).0
  unfolding in_mode on_block_optimal
  in_mode-IsTidy ExecutionMode.twap s v l e t = twap-IsTidy s e t
  in_mode-IsTidy ExecutionMode.heuristic s v l e t = heuristic-IsTidy s v l e t
  in_mode-IsTidy ExecutionMode.optimal s v l e t = optimal-IsTidy s v l s.execution_schedule e t
  in_mode-IsTidy ExecutionMode.adaptive_optimal s v l e t = adaptive-IsTidy s v l e t
  in_mode-IsTidy ExecutionMode.regime_ac s v l e t = regime-IsTidy s v s.regime_ac e t

  pub on_block-IsTidy :
      (s : Scheduler F) (v : F) (l : LiquiditySnapshot F) → IsTidy s → IsTidy (on_block s v l).0
  on_block-IsTidy s v l t = elim (Bool-cases s.completed) [
    | inl e ↦ rw (on_block-completed s v l e) t
    | inr e ↦ rw (on_block-open s v l e) (in_mode-IsTidy s.mode s v l e t)
  ]

  run_blocks-IsTidy :
      (blocks : List (F × LiquiditySnapshot F)) (s : Scheduler F)
      → IsTidy s
      → IsTidy (run_blocks s blocks)
  unfolding run_blocks
  run_blocks-IsTidy [] s t = t
  run_blocks-IsTidy ((v, l) ∷ rest) s t =
      run_blocks-IsTidy rest (on_block s v l).0 (on_block-IsTidy s v l t)

  -- A new scheduler with a notional above 1e-8, in any mode, is tidy after any sequence of blocks,
  -- whatever the risk manager refuses and whether or not a schedule can be built: it is completed
  -- exactly when nothing remains, and what remains is otherwise more than 1e-8.
  pub new_scheduler-IsTidy :
      (risk : RiskManager F) (t chunk sigma_ref liquidity_ref : F) (mode : ExecutionMode)
      (eta lambda : F) (override : Option ℕ) (blocks : List (F × LiquiditySnapshot F))
      → lit 1 8 ≺ t
      → IsTidy (
          run_blocks
            (new_scheduler risk t chunk sigma_ref liquidity_ref mode eta lambda override)
            blocks)
  new_scheduler-IsTidy risk t chunk sigma_ref liquidity_ref mode eta lambda override blocks h =
      run_blocks-IsTidy blocks _
        (unfold new_scheduler in record { done = λ p. absurd (true≢false (sym p)); going = λ _. h })
