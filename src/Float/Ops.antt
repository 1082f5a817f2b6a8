-- ===== src/Float/Ops.antt =====
-- The operations of `f64` that the program calls, and the `std` methods built on comparisons.
use Prim.Native.Nat.{Ordering}
use strata_exec.Prelude.{Option, some, none, ℕ, Bool, not, List, [], ◌∷◌, if◌then◌else◌}

-- `lit m e` is the literal m · 10^-e; `of_usize` is `as f64`, `ceil_usize` is `.ceil() as usize` and
-- `round_usize` is `.round() as usize`.
pub record Float (F : Type 0) : Type 0 where
  pub add : F → F → F
  pub sub : F → F → F
  pub mul : F → F → F
  pub div : F → F → F
  pub lt : F → F → Bool
  pub le : F → F → Bool
  pub eq : F → F → Bool
  pub neg : F → F
  pub sqrt : F → F
  pub exp : F → F
  pub ln : F → F
  pub sinh : F → F
  pub tanh : F → F
  pub sin : F → F
  pub cos : F → F
  pub powi : F → ℕ → F
  pub is_finite : F → Bool
  pub lit : ℕ → ℕ → F
  pub of_usize : ℕ → F
  pub ceil_usize : F → ℕ
  pub round_usize : F → ℕ

module _ {F : Type 0} ⦃f : Float F⦄ where
  infixl 65 ◌⊕◌ ◌⊖◌
  infixl 70 ◌⊗◌ ◌⊘◌
  infix 50 ◌<?◌ ◌≤?◌ ◌=?◌
  abbrev pub ◌⊕◌ : F → F → F
  a ⊕ b = f.add a b

  abbrev pub ◌⊖◌ : F → F → F
  a ⊖ b = f.sub a b

  abbrev pub ◌⊗◌ : F → F → F
  a ⊗ b = f.mul a b

  abbrev pub ◌⊘◌ : F → F → F
  a ⊘ b = f.div a b

  abbrev pub ◌<?◌ : F → F → Bool
  a <? b = f.lt a b

  abbrev pub ◌≤?◌ : F → F → Bool
  a ≤? b = f.le a b

  abbrev pub ◌=?◌ : F → F → Bool
  a =? b = f.eq a b

  abbrev pub lit : ℕ → ℕ → F
  lit m e = f.lit m e

  abbrev pub nought : F
  nought = f.lit 0 0

  abbrev pub one : F
  one = f.lit 1 0

  -- `a.partial_cmp(&b)`: `none` where one of them is NaN.
  unfoldable pub partial_cmp : F → F → Option Ordering
  partial_cmp a b =
      if a <? b
      then some Ordering.lt
      else if b <? a
      then some Ordering.gt
      else if a =? b
      then some Ordering.eq
      else none

  -- `a.min(b)` and `a.max(b)`: an argument that is NaN is passed over.
  unfoldable pub fmin : F → F → F
  fmin a b = if not (a =? a) then b else if b <? a then b else a

  unfoldable pub fmax : F → F → F
  fmax a b = if not (a =? a) then b else if a <? b then b else a

  -- `x.clamp(lo, hi)`, which panics unless lo <= hi.
  unfoldable pub clamp : F → F → F → F
  clamp x lo hi = let y = if x <? lo then lo else x in if hi <? y then hi else y

  unfoldable pub fabs : F → F
  fabs x = if x <? nought then f.neg x else x

  -- `iter().sum::<f64>()`, from the left.
  unfoldable pub sum_from : F → List F → F
  sum_from acc [] = acc
  sum_from acc (x ∷ xs) = sum_from (acc ⊕ x) xs

  unfoldable pub fsum : List F → F
  unfolding sum_from
  fsum xs = sum_from nought xs
