-- ===== src/Strategies/AlmgrenChriss/Inventory.antt =====
-- The schedules of src/strategies/optimal.rs: their length and their sum.
use strata_exec.Prelude.{
  ℕ, zero, suc, ◌+◌, ◌≤◌, ◌≡◌, refl, not, ◌||◌, List, [], ◌∷◌, length, inl, inr, arith, Bool-cases,
}
use strata_exec.Prelude.Int.{pos, +ℤ_parts}
use strata_exec.Float.{Float, ◌⊕◌, ◌⊖◌, ◌<?◌, ◌=?◌, lit, nought, fabs, fsum, sum_from}
use strata_exec.Float.Laws.{IsRounding, IsExact}
use strata_exec.Float.Order.{nought_parts}
use strata_exec.Float.Exact.{Balance, total, add_parts, sub_parts}
use strata_exec.Strategies.AlmgrenChriss.{
  AlmgrenChriss, kappa, equal_trades, add_to_last, absorb, linear_schedule, differences,
  sinh_schedule, schedule,
}

module _ {F : Type 0} ⦃f : Float F⦄ where
  length-equal_trades : (n : ℕ) (chunk : F) → length (equal_trades n chunk) ≡ n
  unfolding equal_trades
  length-equal_trades zero chunk = refl
  length-equal_trades (suc n) chunk = omega (arith, length-equal_trades n chunk)

  length-add_to_last : (xs : List F) (d : F) → length (add_to_last xs d) ≡ length xs
  unfolding add_to_last
  length-add_to_last [] d = refl
  length-add_to_last (x ∷ []) d = refl
  length-add_to_last (x ∷ y ∷ ys) d = omega (arith, length-add_to_last (y ∷ ys) d)

  length-differences :
      (m : AlmgrenChriss F) (k s : F) (n i : ℕ) → length (differences m k s n i) ≡ n
  unfolding differences
  length-differences m k s zero i = refl
  length-differences m k s (suc n) i = omega (arith, length-differences m k s n (i + 1))

  -- Either schedule is the trades of the horizon with the residue of their sum added to the last.
  pub data IsAbsorbed (m : AlmgrenChriss F) (out : List F) : Type 0 where
    absorbed :
        (trades : List F)
        → length trades ≡ m.horizon
        → out ≡ absorb m.total_inventory trades
        → IsAbsorbed m out

  linear_schedule-IsAbsorbed : (m : AlmgrenChriss F) → IsAbsorbed m (linear_schedule m)
  unfolding linear_schedule
  linear_schedule-IsAbsorbed m = absorbed _ (length-equal_trades m.horizon _) refl

  sinh_schedule-IsAbsorbed : (m : AlmgrenChriss F) (k : F) → IsAbsorbed m (sinh_schedule m k)
  unfolding sinh_schedule
  sinh_schedule-IsAbsorbed m k =
      let s = f.sinh (f.mul k (f.of_usize m.horizon)) in
      elim (Bool-cases (fabs s <? lit 1 15 || not (f.is_finite s))) [
        | inl e ↦ rw e (linear_schedule-IsAbsorbed m)
        | inr e ↦ rw e (absorbed _ (length-differences m k s m.horizon 0) refl)
      ]

  schedule-IsAbsorbed : (m : AlmgrenChriss F) → IsAbsorbed m (schedule m)
  unfolding schedule
  schedule-IsAbsorbed m =
      let k = kappa m.eta m.lambda m.sigma in
      elim (Bool-cases (m.lambda =? nought || m.sigma =? nought || k <? lit 1 12)) [
        | inl e ↦ rw e (linear_schedule-IsAbsorbed m)
        | inr e ↦ rw e (sinh_schedule-IsAbsorbed m k)
      ]

  length_of_absorbed :
      (m : AlmgrenChriss F) {out : List F} → IsAbsorbed m out → length out ≡ m.horizon
  unfolding absorb
  length_of_absorbed m (absorbed trades l e) =
      rw e (omega (arith, l, length-add_to_last trades (m.total_inventory ⊖ fsum trades)))

module _ {F : Type 0} ⦃f : Float F⦄ ⦃r : IsRounding F⦄ where
  module _ (x : IsExact F r) where
    sum_from-total :
        (xs : List F) (acc : F) → Balance (r.val (sum_from acc xs)) (pos 0) (r.val acc) (total xs)
    unfolding sum_from total
    sum_from-total [] acc = omega arith
    sum_from-total (y ∷ ys) acc =
        omega (arith, sum_from-total ys (acc ⊕ y), add_parts x acc y, +ℤ_parts (r.val y) (total ys))

    pub fsum-total : (xs : List F) → Balance (r.val (fsum xs)) (pos 0) (total xs) (pos 0)
    unfolding fsum
    fsum-total xs = omega (arith, sum_from-total xs nought, nought_parts r)

    total-add_to_last :
        (xs : List F) (d : F)
        → 1 ≤ length xs
        → Balance (total (add_to_last xs d)) (pos 0) (total xs) (r.val d)
    unfolding add_to_last total
    total-add_to_last [] d h = absurd (omega arith)
    total-add_to_last (y ∷ []) d h =
        omega (arith, add_parts x y d, +ℤ_parts (r.val y) (pos 0), +ℤ_parts (r.val (y ⊕ d)) (pos 0))
    total-add_to_last (y ∷ z ∷ zs) d h = omega (
      arith,
      total-add_to_last (z ∷ zs) d (omega arith),
      +ℤ_parts (r.val y) (total (z ∷ zs)),
      +ℤ_parts (r.val y) (total (add_to_last (z ∷ zs) d)),
    )

    total_of_absorbed :
        (m : AlmgrenChriss F) {out : List F}
        → 1 ≤ m.horizon
        → IsAbsorbed m out
        → Balance (total out) (pos 0) (r.val m.total_inventory) (pos 0)
    unfolding absorb
    total_of_absorbed m h (absorbed trades l e) = rw e (
        omega (
          arith,
          total-add_to_last trades (m.total_inventory ⊖ fsum trades) (omega arith),
          sub_parts x m.total_inventory (fsum trades),
          fsum-total trades,
        ))

    -- The schedule of a model with a horizon of at least one step has one trade for each step, and
    -- the trades add up to the whole inventory, in every case of `schedule`, sums being exact.
    pub schedule-total :
        (m : AlmgrenChriss F)
        → 1 ≤ m.horizon
        → (length (schedule m) ≡ m.horizon)
          × Balance (total (schedule m)) (pos 0) (r.val m.total_inventory) (pos 0)
    schedule-total m h =
        let a = schedule-IsAbsorbed m in (length_of_absorbed m a, total_of_absorbed m h a)
