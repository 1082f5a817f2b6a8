-- ===== src/Float/Exact.antt =====
-- Exact sums and differences, in the form that `omega` reads.
use strata_exec.Prelude.{◌+◌, ◌≡◌, List, [], ◌∷◌, ◌++◌, arith}
use strata_exec.Prelude.Int.{ℤ, pos, ◌+ℤ◌, pos_part, neg_part, +ℤ_parts, -ℤ_parts}
use strata_exec.Float.Ops.{Float, ◌⊕◌, ◌⊖◌}
use strata_exec.Float.Laws.{IsRounding, IsExact}

-- a + b = c + d, for integers.
abbrev pub Balance : ℤ → ℤ → ℤ → ℤ → Type 0
Balance a b c d =
    pos_part a + pos_part b + (neg_part c + neg_part d)
    ≡ pos_part c + pos_part d + (neg_part a + neg_part b)

module _ {F : Type 0} ⦃f : Float F⦄ ⦃r : IsRounding F⦄ where
  -- The exact sum of a list of quantities.
  unfoldable pub total : List F → ℤ
  total [] = pos 0
  total (x ∷ xs) = r.val x +ℤ total xs

  pub total-append_one :
      (xs : List F) (y : F) → Balance (total (xs ++ y ∷ [])) (pos 0) (total xs) (r.val y)
  unfolding total
  total-append_one [] y = omega (arith, +ℤ_parts (r.val y) (pos 0))
  total-append_one (x ∷ xs) y = omega (
    arith,
    total-append_one xs y,
    +ℤ_parts (r.val x) (total xs),
    +ℤ_parts (r.val x) (total (xs ++ y ∷ [])),
  )

module _ {F : Type 0} ⦃f : Float F⦄ ⦃r : IsRounding F⦄ (x : IsExact F r) (a b : F) where
  pub add_parts :
      pos_part (r.val (a ⊕ b)) + neg_part (r.val a) + neg_part (r.val b)
      ≡ neg_part (r.val (a ⊕ b)) + pos_part (r.val a) + pos_part (r.val b)
  add_parts = rw (x.add-val a b) (+ℤ_parts (r.val a) (r.val b))

  pub sub_parts :
      pos_part (r.val (a ⊖ b)) + neg_part (r.val a) + pos_part (r.val b)
      ≡ neg_part (r.val (a ⊖ b)) + pos_part (r.val a) + neg_part (r.val b)
  sub_parts = rw (x.sub-val a b) (-ℤ_parts (r.val a) (r.val b))
