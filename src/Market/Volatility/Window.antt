-- ===== src/Market/Volatility/Window.antt =====
-- src/market/volatility.rs: the running sums are the sums of the window, which never outgrows its size.
use strata_exec.Prelude.{
  ℕ, ◌+◌, ◌≤◌, ◌<◌, ◌⊎◌, ◌≡◌, refl, sym, List, [], ◌∷◌, ◌++◌, ◌==◌, length, length-append, inl, inr,
  arith, Bool-cases, equal→eq, unequal→ne,
}
use strata_exec.Prelude.Int.{pos, +ℤ_parts}
use strata_exec.Float.{Float, ◌⊕◌, ◌⊗◌}
use strata_exec.Float.Laws.{IsRounding, IsExact}
use strata_exec.Float.Order.{nought_parts}
use strata_exec.Float.Exact.{Balance, total, total-append_one, add_parts, sub_parts}
use strata_exec.Market.Volatility.{VolatilityEstimator, new_estimator, evict, update}

below : (a b : ℕ) → a ≤ b → (a < b) ⊎ (b < a) → 1 + a ≤ b
below a b h (inl l) = omega arith
below a b h (inr l) = omega arith

module _ {F : Type 0} ⦃f : Float F⦄ where
  unfoldable pub squares : List F → List F
  squares [] = []
  squares (y ∷ ys) = (y ⊗ y) ∷ squares ys

  squares-append_one : (ys : List F) (y : F) → squares (ys ++ y ∷ []) ≡ squares ys ++ (y ⊗ y) ∷ []
  unfolding squares
  squares-append_one [] y = refl
  squares-append_one (z ∷ zs) y = rw (squares-append_one zs y) refl

module _ {F : Type 0} ⦃f : Float F⦄ ⦃r : IsRounding F⦄ where
  -- The window holds at most its size, `sum` is the exact sum of its returns and `sum_sq` of their
  -- squares.
  pub record IsRolling (e : VolatilityEstimator F) : Type 0 where
    pub fits : length e.returns ≤ e.window
    pub sums : Balance (r.val e.sum) (pos 0) (total e.returns) (pos 0)
    pub squared : Balance (r.val e.sum_sq) (pos 0) (total (squares e.returns)) (pos 0)

  pub new_estimator-IsRolling : (window : ℕ) → IsRolling (new_estimator {F = F} window)
  unfolding new_estimator total squares
  new_estimator-IsRolling window = record {
    fits = omega arith;
    sums = omega (arith, nought_parts r);
    squared = omega (arith, nought_parts r);
  }

  -- `update` once there is room.
  push : VolatilityEstimator F → F → VolatilityEstimator F
  push e value = record e {
    returns = e.returns ++ value ∷ [];
    sum = e.sum ⊕ value;
    sum_sq = e.sum_sq ⊕ value ⊗ value;
  }

  length_of :
      (e : VolatilityEstimator F) (rest : List F) (old : F)
      → (old ∷ rest) ≡ e.returns
      → length e.returns ≡ 1 + length rest
  length_of e rest old p = rw (sym p) (omega arith)

  evict_window : (e : VolatilityEstimator F) (rs : List F) → (evict e rs).window ≡ e.window
  unfolding evict
  evict_window e [] = refl
  evict_window e (old ∷ rest) = refl

  module _ (x : IsExact F r) where
    push-IsRolling :
        (e : VolatilityEstimator F) (value : F)
        → 1 + length e.returns ≤ e.window
        → IsRolling e
        → IsRolling (push e value)
    unfolding push
    push-IsRolling e value room i = record {
      fits = omega (arith, length-append e.returns (value ∷ []));
      sums = omega (arith, i.sums, total-append_one e.returns value, add_parts x e.sum value);
      squared = rw (squares-append_one e.returns value) (
          omega (
            arith,
            i.squared,
            total-append_one (squares e.returns) (value ⊗ value),
            add_parts x e.sum_sq (value ⊗ value),
          ));
    }

    evict-IsRolling :
        (e : VolatilityEstimator F) (rs : List F)
        → rs ≡ e.returns
        → 1 ≤ length rs
        → IsRolling e
        → IsRolling (evict e rs) × (1 + length (evict e rs).returns ≤ (evict e rs).window)
    unfolding evict total squares
    evict-IsRolling e [] p h i = absurd (omega arith)
    evict-IsRolling e (old ∷ rest) p h i = (
      record {
        fits = omega (arith, i.fits, length_of e rest old p);
        sums =
            omega (
              arith,
              rw (sym p) at i.sums,
              sub_parts x e.sum old,
              +ℤ_parts (r.val old) (total rest),
            );
        squared = omega (
          arith,
          rw (sym p) at i.squared,
          sub_parts x e.sum_sq (old ⊗ old),
          +ℤ_parts (r.val (old ⊗ old)) (total (squares rest)),
        );
      },
      omega (arith, i.fits, length_of e rest old p),
    )

    -- An update of an estimator with a window of at least one return keeps its sums exact (of the returns and of their squares) and its
    -- returns within the window, sums and differences being exact.
    pub update-IsRolling :
        (e : VolatilityEstimator F) (value : F)
        → 1 ≤ e.window
        → IsRolling e
        → IsRolling (update e value) × ((update e value).window ≡ e.window)
    unfolding update push
    update-IsRolling e value h i = elim (Bool-cases (length e.returns == e.window)) [
      | inl full ↦
          let (kept, space) =
            evict-IsRolling e e.returns refl
              (omega (arith, h, equal→eq (length e.returns) e.window full)) i in
          rw full (push-IsRolling (evict e e.returns) value space kept, evict_window e e.returns)
      | inr room ↦ rw room (
        push-IsRolling e value
            (below (length e.returns) e.window i.fits (unequal→ne (length e.returns) e.window room))
            i,
        refl,
      )
    ]
