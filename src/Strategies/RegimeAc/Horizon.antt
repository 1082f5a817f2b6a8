-- ===== src/Strategies/RegimeAc/Horizon.antt =====
-- src/strategies/regime_ac.rs: a step never sells more than remains, and the horizon ends the sale.
use native.Mathlib.Decide.{dec_le}
use strata_exec.Prelude.{
  ◌+◌, ◌≤◌, ◌≡◌, refl, true, false, List, [], ◌∷◌, ◌==◌, length, inl, inr, arith, Bool-cases,
}
use strata_exec.Float.{Float, ◌⊖◌, ◌≤?◌, lit, nought, fmin}
use strata_exec.Float.Laws.{IsRounding}
use strata_exec.Float.Order.{
  ◌≼◌, IsNonneg, nought_parts, lit_nonneg, ≼→le, not_le→≺, sub-IsNonneg, sub-le_self, sub_self-le,
  fmin-le_right, fmax-le, fmax-ge_right,
}
use strata_exec.Strategies.RegimeAc.{
  RegimeAcStrategy, is_complete, remaining_horizon, final_qty, settle, compute_baseline_trade,
  observe, active_step, on_block,
}

module _ {F : Type 0} ⦃f : Float F⦄ where
  -- The strategy after a sequence of blocks, each a volatility and a half-spread.
  unfoldable pub feed : RegimeAcStrategy F → List (F × F) → RegimeAcStrategy F
  feed s [] = s
  feed s ((sigma, half_spread) ∷ rest) = feed (on_block s sigma half_spread).0 rest

  on_block_complete :
      (s : RegimeAcStrategy F) (sigma half_spread : F)
      → is_complete s ≡ true
      → on_block s sigma half_spread ≡ (s, nought)
  unfolding on_block
  on_block_complete s sigma half_spread e = rw e refl

  feed_complete :
      (s : RegimeAcStrategy F) (blocks : List (F × F)) → is_complete s ≡ true → feed s blocks ≡ s
  unfolding feed
  feed_complete s [] e = refl
  feed_complete s ((sigma, half_spread) ∷ rest) e =
      rw (on_block_complete s sigma half_spread e) (feed_complete s rest e)

module _ {F : Type 0} ⦃f : Float F⦄ ⦃r : IsRounding F⦄ where
  -- One step that is not a no-op.
  pub record IsStep (s s' : RegimeAcStrategy F) (qty : F) : Type 0 where
    pub counted : s'.steps_taken ≡ s.steps_taken + 1
    pub same_horizon : s'.horizon ≡ s.horizon
    pub qty_nonneg : IsNonneg qty
    pub qty_within : qty ≼ s.remaining
    pub left_nonneg : IsNonneg s'.remaining
    pub left_within : s'.remaining ≼ s.remaining
    pub swept : s.horizon ≤ s.steps_taken + 1 → s'.remaining ≡ nought

  final_qty_bounds :
      (s : RegimeAcStrategy F) (trade : F)
      → IsNonneg s.remaining
      → IsNonneg (final_qty s trade) × (final_qty s trade ≼ s.remaining)
  unfolding final_qty
  final_qty_bounds s trade h = elim (Bool-cases (remaining_horizon s == 1)) [
    | inl e ↦ rw e (h, omega arith)
    | inr e ↦ rw e (
      omega (arith, nought_parts r, fmax-ge_right (fmin trade s.remaining) nought),
      fmax-le (fmin trade s.remaining) nought s.remaining (fmin-le_right trade s.remaining)
          (omega (arith, nought_parts r)),
    )
  ]

  final_qty_last :
      (s : RegimeAcStrategy F) (trade : F)
      → s.horizon ≤ s.steps_taken + 1
      → final_qty s trade ≡ s.remaining
  unfolding final_qty
  final_qty_last s trade h =
      let last : (remaining_horizon s == 1) ≡ true = ground arith in rw last refl

  settle-IsStep :
      (s : RegimeAcStrategy F) (trade : F)
      → IsNonneg s.remaining
      → IsStep s (settle s (final_qty s trade)).0 (settle s (final_qty s trade)).1
  unfolding settle
  settle-IsStep s trade h =
      let qty = final_qty s trade in
      let (low, high) = final_qty_bounds s trade h in
      let left = sub-IsNonneg s.remaining qty high in
      let less = sub-le_self s.remaining qty low in
      elim (Bool-cases (s.remaining ⊖ qty ≤? lit 1 8)) [
        | inl e ↦ rw e (record {
          counted = refl;
          same_horizon = refl;
          qty_nonneg = low;
          qty_within = high;
          left_nonneg = omega (arith, nought_parts r);
          left_within = omega (arith, nought_parts r);
          swept = λ _. refl;
        })
        | inr e ↦ rw e (record {
          counted = refl;
          same_horizon = refl;
          qty_nonneg = low;
          qty_within = high;
          left_nonneg = left;
          left_within = less;
          swept = λ last. absurd (
              let same : s.remaining ⊖ final_qty s trade ≼ nought =
                rw (final_qty_last s trade last) (sub_self-le s.remaining) in
              let more = not_le→≺ (s.remaining ⊖ final_qty s trade) (lit 1 8) e in
              omega (arith, nought_parts r, lit_nonneg r 1 8));
        })
      ]

  -- A step from a state that differs only in what a step does not read.
  rebase :
      (s0 s s' : RegimeAcStrategy F) (q : F)
      → s0.steps_taken ≡ s.steps_taken
      → s0.horizon ≡ s.horizon
      → s0.remaining ≡ s.remaining
      → IsStep s0 s' q
      → IsStep s s' q
  rebase s0 s s' q a b c i = record {
    counted = omega (arith, i.counted);
    same_horizon = omega (arith, i.same_horizon);
    qty_nonneg = i.qty_nonneg;
    qty_within = rw (← c) i.qty_within;
    left_nonneg = i.left_nonneg;
    left_within = rw (← c) i.left_within;
    swept = λ h. i.swept (omega arith);
  }

  on_block-active :
      (s : RegimeAcStrategy F) (sigma half_spread : F)
      → is_complete s ≡ false
      → s.warmed_up ≡ true
      → on_block s sigma half_spread ≡ active_step s sigma half_spread
  unfolding on_block
  on_block-active s sigma half_spread e w = simp (e, w)

  on_block-warm :
      (s : RegimeAcStrategy F) (sigma half_spread : F)
      → is_complete s ≡ false
      → s.warmed_up ≡ false
      → on_block s sigma half_spread ≡ compute_baseline_trade (observe s sigma half_spread) sigma
  unfolding on_block
  on_block-warm s sigma half_spread e w = simp (e, w)

  active-IsStep :
      (s : RegimeAcStrategy F) (sigma half_spread : F)
      → IsNonneg s.remaining
      → IsStep s (active_step s sigma half_spread).0 (active_step s sigma half_spread).1
  unfolding active_step
  active-IsStep s sigma half_spread h = rebase _ s _ _ refl refl refl (settle-IsStep _ _ h)

  baseline-IsStep :
      (s : RegimeAcStrategy F) (sigma half_spread : F)
      → IsNonneg s.remaining
      → let out = compute_baseline_trade (observe s sigma half_spread) sigma in IsStep s out.0 out.1
  unfolding compute_baseline_trade observe
  baseline-IsStep s sigma half_spread h = rebase _ s _ _ refl refl refl (settle-IsStep _ _ h)

  -- A block that finds the strategy incomplete with a remaining quantity that is not negative, in either
  -- phase, counts one step and sells a quantity
  -- that is not negative and at most what remains; the last step of the horizon leaves exactly zero.
  pub on_block-IsStep :
      (s : RegimeAcStrategy F) (sigma half_spread : F)
      → IsNonneg s.remaining
      → is_complete s ≡ false
      → IsStep s (on_block s sigma half_spread).0 (on_block s sigma half_spread).1
  on_block-IsStep s sigma half_spread h e = elim (Bool-cases s.warmed_up) [
    | inl w ↦ rw (on_block-active s sigma half_spread e w) (active-IsStep s sigma half_spread h)
    | inr w ↦ rw (on_block-warm s sigma half_spread e w) (baseline-IsStep s sigma half_spread h)
  ]

  complete_of_nought : (s : RegimeAcStrategy F) → s.remaining ≡ nought → is_complete s ≡ true
  unfolding is_complete
  complete_of_nought s e =
      rw e (≼→le {F = F} nought (lit 1 8) (omega (arith, nought_parts r, lit_nonneg r 1 8)))

  -- Whatever the volatilities and spreads, a strategy whose remaining quantity is not negative is complete after as many blocks as its
  -- horizon has steps left, and after one block at the latest if it has none.
  pub feed-finishes :
      (blocks : List (F × F)) (s : RegimeAcStrategy F)
      → IsNonneg s.remaining
      → 1 ≤ length blocks
      → s.horizon ≤ s.steps_taken + length blocks
      → is_complete (feed s blocks) ≡ true
  unfolding feed
  feed-finishes [] s h one enough = absurd (omega arith)
  feed-finishes ((sigma, half_spread) ∷ rest) s h one enough = elim (Bool-cases (is_complete s)) [
    | inl e ↦ rw (on_block_complete s sigma half_spread e, feed_complete s rest e) e
    | inr e ↦
        let i = on_block-IsStep s sigma half_spread h e in
        let s' = (on_block s sigma half_spread).0 in
        elim (dec_le s.horizon (s.steps_taken + 1)) [
          | yes last ↦
              let done = complete_of_nought s' (i.swept last) in
              rw (feed_complete s' rest done) done
          | no more ↦
              feed-finishes rest s' i.left_nonneg (omega arith)
                (omega (arith, i.counted, i.same_horizon))
        ]
  ]
