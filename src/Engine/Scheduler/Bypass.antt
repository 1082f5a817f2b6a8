-- ===== src/Engine/Scheduler/Bypass.antt =====
-- src/engine/scheduler.rs: the two modes that trade without the risk manager.
use strata_exec.Prelude.{
  ◌≡◌, refl, ◌∙◌, Bool, true, false, Option, none, some, List, [], ◌∷◌, ◌⊎◌, inl, inr, Bool-cases,
}
use strata_exec.Float.{Float}
use strata_exec.Market.{LiquiditySnapshot}
use strata_exec.Strategies.RegimeAc.{RegimeAcStrategy}
use strata_exec.Engine.Scheduler.{
  ExecutionMode, Scheduler, book, book_or, on_block_twap, step_regime, in_mode, on_block,
}
use strata_exec.Engine.Scheduler.Progress.{run_blocks, on_block-completed, on_block-open}

-- The mode is one of the two.
abbrev pub IsUnchecked : ExecutionMode → Type 0
IsUnchecked mode = (mode ≡ ExecutionMode.twap) ⊎ (mode ≡ ExecutionMode.regime_ac)

module _ {F : Type 0} ⦃f : Float F⦄ where
  -- The risk manager and the mode are as they were.
  abbrev Keeps : Scheduler F → Scheduler F → Type 0
  Keeps s s' = (s'.risk ≡ s.risk) × (s'.mode ≡ s.mode)

  book_or-Keeps :
      (b : Bool) (s : Scheduler F) (chunk : F) (other : Scheduler F)
      → Keeps s other
      → Keeps s (book_or b s chunk other)
  unfolding book_or book
  book_or-Keeps true s chunk other p = (refl, refl)
  book_or-Keeps false s chunk other p = p

  twap-Keeps : (s : Scheduler F) → Keeps s (on_block_twap s)
  unfolding on_block_twap
  twap-Keeps s = book_or-Keeps _ s _ s (refl, refl)

  regime-Keeps :
      (s : Scheduler F) (v : F) (o : Option (RegimeAcStrategy F)) → Keeps s (step_regime s v o)
  unfolding step_regime
  regime-Keeps s v none = (refl, refl)
  regime-Keeps s v (some rac) = book_or-Keeps _ _ _ _ (refl, refl)

  in_mode-Keeps :
      (mode : ExecutionMode) (s : Scheduler F) (v : F) (l : LiquiditySnapshot F)
      → IsUnchecked mode
      → Keeps s (in_mode mode s v l).0
  in_mode-Keeps mode s v l (inl e) = rw e (unfold in_mode in twap-Keeps s)
  in_mode-Keeps mode s v l (inr e) = rw e (unfold in_mode in regime-Keeps s v s.regime_ac)

  on_block-Keeps :
      (s : Scheduler F) (v : F) (l : LiquiditySnapshot F)
      → IsUnchecked s.mode
      → Keeps s (on_block s v l).0
  on_block-Keeps s v l u = elim (Bool-cases s.completed) [
    | inl e ↦ rw (on_block-completed s v l e) (refl, refl)
    | inr e ↦ rw (on_block-open s v l e) (in_mode-Keeps s.mode s v l u)
  ]

  -- In TWAP mode and in the regime-conditional mode no sequence of blocks touches the risk manager:
  -- it is afterwards as it was, and so is the mode.
  pub run_blocks-Keeps :
      (blocks : List (F × LiquiditySnapshot F)) (s : Scheduler F)
      → IsUnchecked s.mode
      → ((run_blocks s blocks).risk ≡ s.risk) × ((run_blocks s blocks).mode ≡ s.mode)
  unfolding run_blocks
  run_blocks-Keeps [] s u = (refl, refl)
  run_blocks-Keeps ((v, l) ∷ rest) s u =
      let (a, b) = on_block-Keeps s v l u in
      let (c, d) = run_blocks-Keeps rest (on_block s v l).0 (rw b u) in (c ∙ a, d ∙ b)
