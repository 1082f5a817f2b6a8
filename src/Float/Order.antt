-- ===== src/Float/Order.antt =====
-- The order of the numbers under the laws: what comparisons, `min`, `max`, `clamp` and the rounded
-- operations guarantee. The components' proofs go through these lemmas.
use strata_exec.Prelude.{ℕ, ◌≡◌, true, false, not, List, [], ◌∷◌, All, ◌⊎◌, arith}
use strata_exec.Prelude.Int.{
  pos, pos_part, neg_part, ◌≤ℤ◌, ◌<ℤ◌, +ℤ_parts, -ℤ_parts, *ℤ_mono_left, *ℤ_nonneg, zero-*ℤ,
  pos_nonneg,
}
use strata_exec.Float.Ops.{
  Float, ◌⊕◌, ◌⊖◌, ◌⊗◌, ◌⊘◌, ◌<?◌, ◌≤?◌, nought, one, fmin, fmax, clamp, fabs, fsum, sum_from,
}
use strata_exec.Float.Laws.{IsRounding}

zero_parts :
    {F : Type 0} ⦃f : Float F⦄ (r : IsRounding F) (e : ℕ)
    → (pos_part (r.val (f.lit 0 e)) ≡ 0) × (neg_part (r.val (f.lit 0 e)) ≡ 0)
zero_parts r e = ground (arith, r.zero-val e)

pub nought_parts :
    {F : Type 0} ⦃f : Float F⦄ (r : IsRounding F)
    → (pos_part (r.val (f.lit 0 0)) ≡ 0) × (neg_part (r.val (f.lit 0 0)) ≡ 0)
nought_parts r = zero_parts r 0

pub lit_nonneg :
    {F : Type 0} ⦃f : Float F⦄ (r : IsRounding F) (m e : ℕ) → pos 0 ≤ℤ r.val (f.lit m e)
lit_nonneg r m e = omega (arith, r.lit-mono 0 e m e (omega arith), zero_parts r e)

module _ {F : Type 0} ⦃f : Float F⦄ ⦃r : IsRounding F⦄ where
  infix 4 ◌≼◌ ◌≺◌
  abbrev pub ◌≼◌ : F → F → Type 0
  a ≼ b = r.val a ≤ℤ r.val b

  abbrev pub ◌≺◌ : F → F → Type 0
  a ≺ b = r.val a <ℤ r.val b

  abbrev pub IsNonneg : F → Type 0
  IsNonneg a = pos 0 ≤ℤ r.val a

  pub lt→≺ : (a b : F) → a <? b ≡ true → a ≺ b
  lt→≺ a b h = ground (arith, r.lt-val a b)

  pub not_lt→≼ : (a b : F) → a <? b ≡ false → b ≼ a
  not_lt→≼ a b h = ground (arith, r.lt-val a b)

  pub ≺→lt : (a b : F) → a ≺ b → a <? b ≡ true
  ≺→lt a b h = ground (arith, r.lt-val a b)

  pub ≼→not_lt : (a b : F) → b ≼ a → a <? b ≡ false
  ≼→not_lt a b h = ground (arith, r.lt-val a b)

  pub le→≼ : (a b : F) → a ≤? b ≡ true → a ≼ b
  le→≼ a b h = ground (arith, r.le-val a b)

  pub not_le→≺ : (a b : F) → a ≤? b ≡ false → b ≺ a
  not_le→≺ a b h = ground (arith, r.le-val a b)

  pub ≼→le : (a b : F) → a ≼ b → a ≤? b ≡ true
  ≼→le a b h = ground (arith, r.le-val a b)

  pub ≺→not_le : (a b : F) → b ≺ a → a ≤? b ≡ false
  ≺→not_le a b h = ground (arith, r.le-val a b)

  pub not_le-eq-lt : (a b : F) → not (a ≤? b) ≡ (b <? a)
  not_le-eq-lt a b = ground (arith, r.le-val a b, r.lt-val b a)

  -- Each of `min` and `max` is one of its arguments, and bounds both.
  pub fmin_lem : (a b : F) → (fmin a b ≼ a) × (fmin a b ≼ b) × ((fmin a b ≡ a) ⊎ (fmin a b ≡ b))
  unfolding fmin
  fmin_lem a b = ground (arith, r.lt-val b a, r.eq-val a a)

  pub fmax_lem : (a b : F) → (a ≼ fmax a b) × (b ≼ fmax a b) × ((fmax a b ≡ a) ⊎ (fmax a b ≡ b))
  unfolding fmax
  fmax_lem a b = ground (arith, r.lt-val a b, r.eq-val a a)

  pub fmin-le_left : (a b : F) → fmin a b ≼ a
  fmin-le_left a b = (fmin_lem a b).0

  pub fmin-le_right : (a b : F) → fmin a b ≼ b
  fmin-le_right a b = (fmin_lem a b).1

  pub le-fmin : (a b c : F) → c ≼ a → c ≼ b → c ≼ fmin a b
  unfolding fmin
  le-fmin a b c p q = ground (arith, r.lt-val b a, r.eq-val a a)

  pub fmax-ge_left : (a b : F) → a ≼ fmax a b
  fmax-ge_left a b = (fmax_lem a b).0

  pub fmax-ge_right : (a b : F) → b ≼ fmax a b
  fmax-ge_right a b = (fmax_lem a b).1

  pub fmax-le : (a b c : F) → a ≼ c → b ≼ c → fmax a b ≼ c
  unfolding fmax
  fmax-le a b c p q = ground (arith, r.lt-val a b, r.eq-val a a)

  pub clamp_bounds : (x lo hi : F) → lo ≼ hi → (lo ≼ clamp x lo hi) × (clamp x lo hi ≼ hi)
  unfolding clamp
  clamp_bounds x lo hi h = ground (arith, r.lt-val x lo, r.lt-val hi x, r.lt-val hi lo)

  pub fabs-IsNonneg : (x : F) → IsNonneg (fabs x)
  unfolding fabs
  fabs-IsNonneg x =
      ground (arith, r.lt-val x nought, nought_parts r, r.neg-val x, -ℤ_parts (pos 0) (r.val x))

  pub add-IsNonneg : (a b : F) → IsNonneg a → IsNonneg b → IsNonneg (a ⊕ b)
  add-IsNonneg a b p q = omega (
    arith,
    nought_parts r,
    +ℤ_parts (r.val a) (r.val b),
    r.le-add a b nought (omega (arith, nought_parts r, +ℤ_parts (r.val a) (r.val b))),
  )

  pub le-add_right : (a b : F) → IsNonneg b → a ≼ a ⊕ b
  le-add_right a b q = r.le-add a b a (omega (arith, +ℤ_parts (r.val a) (r.val b)))

  pub sub-IsNonneg : (a b : F) → b ≼ a → IsNonneg (a ⊖ b)
  sub-IsNonneg a b p = omega (
    arith,
    nought_parts r,
    r.le-sub a b nought (omega (arith, nought_parts r, -ℤ_parts (r.val a) (r.val b))),
  )

  pub sub-le_self : (a b : F) → IsNonneg b → a ⊖ b ≼ a
  sub-le_self a b q = r.sub-le a b a (omega (arith, -ℤ_parts (r.val a) (r.val b)))

  pub sub_self-le : (a : F) → a ⊖ a ≼ nought
  sub_self-le a = r.sub-le a a nought (omega (arith, nought_parts r, -ℤ_parts (r.val a) (r.val a)))

  pub mul-IsNonneg : (a b : F) → IsNonneg a → IsNonneg b → IsNonneg (a ⊗ b)
  mul-IsNonneg a b p q = omega (
    arith,
    nought_parts r,
    r.le-mul a b nought (
        omega (
          arith,
          zero-*ℤ (r.val nought) (pos r.unit) (r.zero-val 0),
          *ℤ_nonneg (r.val a) (r.val b) p q,
        )),
  )

  -- A factor of at most 1 does not make a number larger.
  pub mul-le_self : (a b : F) → IsNonneg a → b ≼ one → a ⊗ b ≼ a
  mul-le_self a b p q =
      r.mul-le a b a (*ℤ_mono_left (r.val a) (r.val b) (pos r.unit) p (ground (arith, r.one-val)))

  pub div-IsNonneg : (a b : F) → IsNonneg a → nought ≺ b → IsNonneg (a ⊘ b)
  div-IsNonneg a b p q = omega (
    arith,
    nought_parts r,
    r.le-div a b nought (ground (arith, nought_parts r)) (
        omega (
          arith,
          zero-*ℤ (r.val nought) (r.val b) (r.zero-val 0),
          *ℤ_nonneg (r.val a) (pos r.unit) p (pos_nonneg r.unit),
        )),
  )

  pub sum_from-IsNonneg :
      (xs : List F) (acc : F) → IsNonneg acc → All IsNonneg xs → IsNonneg (sum_from acc xs)
  unfolding sum_from
  sum_from-IsNonneg [] acc p h = p
  sum_from-IsNonneg (x ∷ xs) acc p h = sum_from-IsNonneg xs (acc ⊕ x) (add-IsNonneg acc x p h.0) h.1

  pub fsum-IsNonneg : (xs : List F) → All IsNonneg xs → IsNonneg (fsum xs)
  unfolding fsum
  fsum-IsNonneg xs h = sum_from-IsNonneg xs nought (omega (arith, nought_parts r)) h
