-- ===== src/Engine/Scheduler/Twap.antt =====
-- src/engine/scheduler.rs: the TWAP mode sells everything in as many blocks as its slices need.
use strata_exec.Prelude.{◌≡◌, refl, true, false, List, [], ◌∷◌, length, inl, inr, arith, Bool-cases}
use strata_exec.Prelude.Int.{ℤ, ◌≤ℤ◌, ◌+ℤ◌, +ℤ_parts}
use strata_exec.Float.{Float, ◌⊖◌, ◌≤?◌, lit, fmin}
use strata_exec.Float.Laws.{IsRounding, IsExact}
use strata_exec.Float.Order.{◌≼◌, ◌≺◌, lit_nonneg, ≺→lt, fmin_lem}
use strata_exec.Float.Exact.{total, sub_parts}
use strata_exec.Market.{LiquiditySnapshot}
use strata_exec.Strategies.AlmgrenChriss.{equal_trades}
use strata_exec.Engine.Scheduler.{
  ExecutionMode, Scheduler, book, book_or, on_block_twap, in_mode, on_block,
}
use strata_exec.Engine.Scheduler.Progress.{
  run_blocks, IsTidy, on_block-IsTidy, on_block-completed, on_block-open,
}

module _ {F : Type 0} ⦃f : Float F⦄ where
  run_blocks_next :
      (v : F) (l : LiquiditySnapshot F) (rest : List (F × LiquiditySnapshot F)) (s : Scheduler F)
      → run_blocks s ((v, l) ∷ rest) ≡ run_blocks (on_block s v l).0 rest
  unfolding run_blocks
  run_blocks_next v l rest s = refl

  run_blocks_completed :
      (blocks : List (F × LiquiditySnapshot F)) (s : Scheduler F)
      → s.completed ≡ true
      → run_blocks s blocks ≡ s
  unfolding run_blocks
  run_blocks_completed [] s e = refl
  run_blocks_completed ((v, l) ∷ rest) s e =
      rw (on_block-completed s v l e) (run_blocks_completed rest s e)

module _ {F : Type 0} ⦃f : Float F⦄ ⦃r : IsRounding F⦄ where
  threshold :
      (s : Scheduler F)
      → lit 1 10 ≺ s.twap_qty_per_step
      → lit 1 8 ≺ s.remaining_notional
      → lit 1 10 ≺ fmin s.twap_qty_per_step s.remaining_notional
  threshold s q more =
      let (_, _, c) = fmin_lem s.twap_qty_per_step s.remaining_notional in
      let small = r.lit-mono 1 10 1 8 (omega arith) in
      elim c [ inl e ↦ rw e q | inr e ↦ rw e (omega arith) ]

  -- A block in TWAP mode with a slice and a remainder above the threshold books a slice.
  twap_books :
      (s : Scheduler F)
      → lit 1 10 ≺ fmin s.twap_qty_per_step s.remaining_notional
      → on_block_twap s ≡ book s (fmin s.twap_qty_per_step s.remaining_notional)
  unfolding on_block_twap book_or
  twap_books s h =
      rw (≺→lt {F = F} (lit 1 10) (fmin s.twap_qty_per_step s.remaining_notional) h) refl

  -- What a block in TWAP mode leaves.
  record IsSlice (s s' : Scheduler F) : Type 0 where
    mode_kept : s'.mode ≡ s.mode
    slice_kept : s'.twap_qty_per_step ≡ s.twap_qty_per_step
    sold :
        s'.completed ≡ false
        → s'.remaining_notional
          ≡ s.remaining_notional ⊖ fmin s.twap_qty_per_step s.remaining_notional

  book-IsSlice :
      (s : Scheduler F) → IsSlice s (book s (fmin s.twap_qty_per_step s.remaining_notional))
  unfolding book
  book-IsSlice s =
      elim (Bool-cases
        (s.remaining_notional ⊖ fmin s.twap_qty_per_step s.remaining_notional ≤? lit 1 8)) [
          | inl e ↦ simp e (record { mode_kept = refl; slice_kept = refl; sold = λ p. cc })
          | inr e ↦ simp e (record { mode_kept = refl; slice_kept = refl; sold = λ _. refl })
        ]

  in_mode_twap :
      (s : Scheduler F) (v : F) (l : LiquiditySnapshot F) (mode : ExecutionMode)
      → mode ≡ ExecutionMode.twap
      → (in_mode mode s v l).0 ≡ on_block_twap s
  in_mode_twap s v l mode m = rw m (unfold in_mode in refl)

  on_block-IsSlice :
      (s : Scheduler F) (v : F) (l : LiquiditySnapshot F)
      → s.completed ≡ false
      → s.mode ≡ ExecutionMode.twap
      → lit 1 10 ≺ fmin s.twap_qty_per_step s.remaining_notional
      → IsSlice s (on_block s v l).0
  on_block-IsSlice s v l e m h =
      rw (on_block-open s v l e) (rw (in_mode_twap s v l s.mode m, twap_books s h) (book-IsSlice s))

  module _ (x : IsExact F r) where
    one_less :
        (s s' : Scheduler F) (more : ℤ)
        → s'.remaining_notional
          ≡ s.remaining_notional ⊖ fmin s.twap_qty_per_step s.remaining_notional
        → lit 1 8 ≺ s'.remaining_notional
        → r.val s.remaining_notional ≤ℤ r.val s.twap_qty_per_step +ℤ more
        → r.val s'.remaining_notional ≤ℤ more
    one_less s s' more e above enough =
        let fill = fmin s.twap_qty_per_step s.remaining_notional in
        let (_, _, c) = fmin_lem s.twap_qty_per_step s.remaining_notional in
        let above' = rw e at above in
        rw e (elim c [
          | inl p ↦
              let p' : s.twap_qty_per_step ≼ fill = rw p (omega arith) in
              omega (
                arith,
                p',
                sub_parts x s.remaining_notional fill,
                +ℤ_parts (r.val s.twap_qty_per_step) more,
              )
          | inr p ↦
              let p' : s.remaining_notional ≼ fill = rw p (omega arith) in
              absurd (omega (arith, p', sub_parts x s.remaining_notional fill, lit_nonneg r 1 8))
        ])

    -- A scheduler in TWAP mode whose slice is above 1e-10 is completed after as many blocks as
    -- slices make up what remains, whatever the blocks say, sums being exact.
    pub twap-finishes :
        (blocks : List (F × LiquiditySnapshot F)) (s : Scheduler F)
        → IsTidy s
        → s.mode ≡ ExecutionMode.twap
        → lit 1 10 ≺ s.twap_qty_per_step
        → r.val s.remaining_notional ≤ℤ total (equal_trades (length blocks) s.twap_qty_per_step)
        → (run_blocks s blocks).completed ≡ true
    unfolding total equal_trades
    twap-finishes [] s t m q enough = elim (Bool-cases s.completed) [
      | inl e ↦ rw (run_blocks_completed [] s e) e
      | inr e ↦ let more = t.going e in absurd (omega (arith, lit_nonneg r 1 8))
    ]
    twap-finishes ((v, l) ∷ rest) s t m q enough = elim (Bool-cases s.completed) [
      | inl e ↦ rw (run_blocks_completed ((v, l) ∷ rest) s e) e
      | inr e ↦
          let i = on_block-IsSlice s v l e m (threshold s q (t.going e)) in
          let s' = (on_block s v l).0 in
          let t' = on_block-IsTidy s v l t in
          rw (run_blocks_next v l rest s) (elim (Bool-cases s'.completed) [
            | inl done ↦ rw (run_blocks_completed rest s' done) done
            | inr more ↦ twap-finishes rest s' t' (rw i.mode_kept m) (rw i.slice_kept q) (
                rw i.slice_kept (
                  one_less s s' (total (equal_trades (length rest) s.twap_qty_per_step))
                    (i.sold more) (t'.going more) enough))
          ])
    ]
