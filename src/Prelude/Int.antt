-- ===== src/Prelude/Int.antt =====
-- Signed integers over the native numbers: the exact values of the floating-point numbers.
use Prim.Native.Nat.{ℕ, suc, ◌+◌, ◌-◌, ◌*◌, ◌/◌, ◌≤◌, ◌<◌}
use mathlib.Core.Path.{◌≡◌}
use native.Mathlib.Nat.{mul-le-mul_left, div-mul-le_self, lt-div-mul-add}
use mathlib.Core.Bool.{Bool}
use native.Mathlib.Omega.{arith}
use strata_exec.Prelude.Tests.{ltb, leb, ◌==◌, if◌then◌else◌}

-- `negsuc n` is -(n + 1).
pub data ℤ : Type 0 where
  pos : ℕ → ℤ
  negsuc : ℕ → ℤ

abbrev pub pos_part : ℤ → ℕ
pos_part (pos n) = n
pos_part (negsuc n) = 0

abbrev pub neg_part : ℤ → ℕ
neg_part (pos n) = 0
neg_part (negsuc n) = suc n

abbrev pub sub_ℕ : ℕ → ℕ → ℤ
sub_ℕ a b = if leb b a then pos (a - b) else negsuc (b - a - 1)

infixl 65 ◌+ℤ◌ ◌-ℤ◌
infixl 70 ◌*ℤ◌
infix 50 ◌≤ℤ◌ ◌<ℤ◌
unfoldable pub ◌+ℤ◌ : ℤ → ℤ → ℤ
a +ℤ b = sub_ℕ (pos_part a + pos_part b) (neg_part a + neg_part b)

unfoldable pub ◌-ℤ◌ : ℤ → ℤ → ℤ
a -ℤ b = sub_ℕ (pos_part a + neg_part b) (neg_part a + pos_part b)

unfoldable pub ◌*ℤ◌ : ℤ → ℤ → ℤ
a *ℤ b =
    sub_ℕ (pos_part a * pos_part b + neg_part a * neg_part b)
      (pos_part a * neg_part b + neg_part a * pos_part b)

abbrev pub ◌≤ℤ◌ : ℤ → ℤ → Type 0
a ≤ℤ b = pos_part a + neg_part b ≤ pos_part b + neg_part a

abbrev pub ◌<ℤ◌ : ℤ → ℤ → Type 0
a <ℤ b = pos_part a + neg_part b < pos_part b + neg_part a

abbrev pub ltb_ℤ : ℤ → ℤ → Bool
ltb_ℤ a b = ltb (pos_part a + neg_part b) (pos_part b + neg_part a)

abbrev pub leb_ℤ : ℤ → ℤ → Bool
leb_ℤ a b = leb (pos_part a + neg_part b) (pos_part b + neg_part a)

abbrev pub eqb_ℤ : ℤ → ℤ → Bool
eqb_ℤ a b = (pos_part a + neg_part b) == (pos_part b + neg_part a)

-- a / d rounded down, for d > 0.
unfoldable pub floor_div : ℤ → ℕ → ℤ
floor_div (pos n) d = pos (n / d)
floor_div (negsuc n) d = negsuc (n / d)

pub +ℤ_parts :
    (a b : ℤ)
    → pos_part (a +ℤ b) + neg_part a + neg_part b ≡ neg_part (a +ℤ b) + pos_part a + pos_part b
unfolding ◌+ℤ◌
+ℤ_parts a b = ground arith

pub -ℤ_parts :
    (a b : ℤ)
    → pos_part (a -ℤ b) + neg_part a + pos_part b ≡ neg_part (a -ℤ b) + pos_part a + neg_part b
unfolding ◌-ℤ◌
-ℤ_parts a b = ground arith

pub *ℤ_parts :
    (a b : ℤ)
    → pos_part (a *ℤ b) + (pos_part a * neg_part b + neg_part a * pos_part b)
      ≡ neg_part (a *ℤ b) + (pos_part a * pos_part b + neg_part a * neg_part b)
unfolding ◌*ℤ◌
*ℤ_parts a b = ground arith

pub eq_of_parts : (a b : ℤ) → pos_part a + neg_part b ≡ pos_part b + neg_part a → a ≡ b
eq_of_parts a b h = ground arith

pub ruleset int_laws = (arith, +ℤ_parts, -ℤ_parts, *ℤ_parts, eq_of_parts)

-- The two halves of the Galois connection between multiplying by d and `floor_div`.
pub floor_div-le : (a c : ℤ) (d : ℕ) → 0 < d → a ≤ℤ c *ℤ pos d → floor_div a d ≤ℤ c
unfolding floor_div ◌*ℤ◌
floor_div-le (pos n) (pos c) d p h = grind arith
floor_div-le (pos n) (negsuc c) d p h = grind arith
floor_div-le (negsuc n) (pos c) d p h = grind arith
floor_div-le (negsuc n) (negsuc c) d p h = grind arith

div-le_of_lt : (n c d : ℕ) → 0 < d → n < c * d + d → n / d ≤ c
div-le_of_lt n c d p h = grind arith

neg_product : (n c d : ℕ) → negsuc c *ℤ pos d ≤ℤ negsuc n → n < c * d + d
neg_product n c d h = omega (arith, *ℤ_parts (negsuc c) (pos d))

pub le-floor_div : (a c : ℤ) (d : ℕ) → 0 < d → c *ℤ pos d ≤ℤ a → c ≤ℤ floor_div a d
unfolding floor_div ◌*ℤ◌
le-floor_div (pos n) (pos c) d p h = grind arith
le-floor_div (pos n) (negsuc c) d p h = grind arith
le-floor_div (negsuc n) (pos c) d p h = grind arith
le-floor_div (negsuc n) (negsuc c) d p h = omega (arith, div-le_of_lt n c d p (neg_product n c d h))

pub *ℤ_mono_left : (a b c : ℤ) → pos 0 ≤ℤ a → b ≤ℤ c → a *ℤ b ≤ℤ a *ℤ c
*ℤ_mono_left (pos n) b c p h =
    omega (arith, mul-le-mul_left n h, *ℤ_parts (pos n) b, *ℤ_parts (pos n) c)
*ℤ_mono_left (negsuc n) b c p h = absurd (omega arith)

pub *ℤ_nonneg : (a b : ℤ) → pos 0 ≤ℤ a → pos 0 ≤ℤ b → pos 0 ≤ℤ a *ℤ b
*ℤ_nonneg a b p q = omega (arith, *ℤ_mono_left a (pos 0) b p q, *ℤ_parts a (pos 0))

pub zero-*ℤ : (a b : ℤ) → a ≡ pos 0 → pos_part (a *ℤ b) ≡ neg_part (a *ℤ b)
zero-*ℤ a b e = rw e (omega (arith, *ℤ_parts (pos 0) b))

pub pos_nonneg : (n : ℕ) → pos 0 ≤ℤ pos n
pos_nonneg n = omega arith

pub floor_div-*ℤ-le : (a : ℤ) (d : ℕ) → 0 < d → floor_div a d *ℤ pos d ≤ℤ a
unfolding floor_div
floor_div-*ℤ-le (pos n) d p = omega (arith, div-mul-le_self n d, *ℤ_parts (pos (n / d)) (pos d))
floor_div-*ℤ-le (negsuc n) d p =
    omega (arith, lt-div-mul-add {a = n} p, *ℤ_parts (negsuc (n / d)) (pos d))

pub floor_div_mono : (a b : ℤ) (d : ℕ) → 0 < d → a ≤ℤ b → floor_div a d ≤ℤ floor_div b d
floor_div_mono a b d p h = le-floor_div b (floor_div a d) d p (omega (arith, floor_div-*ℤ-le a d p))

pub *ℤ_comm : (a b : ℤ) → a *ℤ b ≡ b *ℤ a
unfolding ◌*ℤ◌
*ℤ_comm a b = grind arith
