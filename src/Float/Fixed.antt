-- ===== src/Float/Fixed.antt =====
-- A concrete instance of the laws: decimal fixed point with 15 places, every product and quotient
-- rounded down. The tests run on it. `sqrt` is a bitwise integer square root; `exp`, `ln`, `sinh`, `tanh`, `sin` and `cos`
-- are coarse stand-ins, of which the laws only say the sign.
use native.Mathlib.Nat.{
  zero-div, pow-le-pow_right, one-le-pow, le-div_iff_mul-le, div-mul-le_self,
  le_of_mul-le-mul_right, mul-le-mul_right,
}
use strata_exec.Prelude.{
  ℕ, zero, suc, ◌+◌, ◌-◌, ◌*◌, ◌/◌, ◌^◌, ◌≤◌, ◌<◌, ◌≡◌, refl, true, leb, if◌then◌else◌, arith,
}
use strata_exec.Prelude.Int.{
  ℤ, pos, negsuc, pos_part, neg_part, sub_ℕ, ◌+ℤ◌, ◌-ℤ◌, ◌*ℤ◌, ◌≤ℤ◌, ◌<ℤ◌, ltb_ℤ, leb_ℤ, eqb_ℤ,
  floor_div, floor_div-le, le-floor_div, floor_div_mono, *ℤ_mono_left,
}
use strata_exec.Float.Ops.{Float}
use strata_exec.Float.Laws.{IsRounding, IsExact}

abbrev pub scale : ℕ
scale = 1_000_000_000_000_000

-- The quotient rounded down; nothing is promised of a divisor that is not positive.
unfoldable pub fixed_div : ℤ → ℤ → ℤ
unfolding floor_div
fixed_div a (pos zero) = pos 0
fixed_div a (pos (suc n)) = floor_div a (suc n)
fixed_div a (negsuc n) = floor_div (sub_ℕ (neg_part a) (pos_part a)) (suc n)

isqrt : ℕ → ℕ → ℕ → ℕ
isqrt zero n r = r
isqrt (suc k) n r = let r' = r + 2 ^ k in isqrt k n (if leb (r' * r') n then r' else r)

unfoldable pub fixed_sqrt : ℤ → ℤ
unfolding isqrt
fixed_sqrt (pos n) = pos (isqrt 80 (n * scale) 0)
fixed_sqrt (negsuc n) = pos 0

unfoldable pub fixed_exp : ℤ → ℤ
fixed_exp (pos n) = pos (scale + n)
fixed_exp (negsuc n) = pos (scale * scale / (scale + suc n))

unfoldable pub fixed_lit : ℕ → ℕ → ℤ
fixed_lit m e = pos (m * scale / 10 ^ e)

unfoldable pub fixed_powi : ℤ → ℕ → ℤ
fixed_powi a zero = pos scale
fixed_powi a (suc n) = floor_div (a *ℤ fixed_powi a n) scale

instance abbrev pub fixed_float : Float ℤ
fixed_float = record {
  add = ◌+ℤ◌;
  sub = ◌-ℤ◌;
  mul = λ a b. floor_div (a *ℤ b) scale;
  div = λ a b. fixed_div (a *ℤ pos scale) b;
  lt = ltb_ℤ;
  le = leb_ℤ;
  eq = eqb_ℤ;
  neg = λ a. pos 0 -ℤ a;
  sqrt = fixed_sqrt;
  exp = fixed_exp;
  ln = λ a. a -ℤ pos scale;
  sinh = λ a. a;
  tanh = λ a. a;
  sin = λ a. a;
  cos = λ a. pos scale;
  powi = fixed_powi;
  is_finite = λ a. true;
  lit = fixed_lit;
  of_usize = λ n. pos (n * scale);
  ceil_usize = λ a. (pos_part a + scale - 1) / scale;
  round_usize = λ a. (pos_part a + 500_000_000_000_000) / scale;
}

pub fixed_div-le : (a b c : ℤ) → pos 0 <ℤ b → a ≤ℤ c *ℤ b → fixed_div a b ≤ℤ c
unfolding fixed_div
fixed_div-le a (pos zero) c p h = absurd (omega arith)
fixed_div-le a (pos (suc n)) c p h = floor_div-le a c (suc n) (omega arith) h
fixed_div-le a (negsuc n) c p h = absurd (omega arith)

pub le-fixed_div : (a b c : ℤ) → pos 0 <ℤ b → c *ℤ b ≤ℤ a → c ≤ℤ fixed_div a b
unfolding fixed_div
le-fixed_div a (pos zero) c p h = absurd (omega arith)
le-fixed_div a (pos (suc n)) c p h = le-floor_div a c (suc n) (omega arith) h
le-fixed_div a (negsuc n) c p h = absurd (omega arith)

pub fixed_sqrt_nonneg : (a : ℤ) → pos 0 ≤ℤ fixed_sqrt a
unfolding fixed_sqrt
fixed_sqrt_nonneg (pos n) = omega arith
fixed_sqrt_nonneg (negsuc n) = omega arith

pub fixed_exp_nonneg : (a : ℤ) → pos 0 ≤ℤ fixed_exp a
unfolding fixed_exp
fixed_exp_nonneg (pos n) = omega arith
fixed_exp_nonneg (negsuc n) = omega arith

pub fixed_lit_zero : (e : ℕ) → fixed_lit 0 e ≡ pos 0
unfolding fixed_lit
fixed_lit_zero e = rw (zero-div (10 ^ e)) refl

pub fixed_lit_one : fixed_lit 1 0 ≡ pos scale
unfolding fixed_lit
fixed_lit_one = refl

pow_ten_le : (e : ℕ) → e ≤ 15 → 10 ^ e ≤ scale
pow_ten_le e h = pow-le-pow_right {n = 10} (omega arith) h

pub fixed_lit_pos : (m e : ℕ) → 0 < m → e ≤ 15 → pos 0 <ℤ fixed_lit m e
unfolding fixed_lit
fixed_lit_pos m e p h =
    let q : 1 ≤ m * scale / 10 ^ e =
      (le-div_iff_mul-le (one-le-pow e 10 (omega arith))).1 (omega (arith, pow_ten_le e h)) in
    omega arith

cross_le : (q d m s d' m' : ℕ) → 0 < d → q * d ≤ m * s → m * d' ≤ m' * d → q * d' ≤ m' * s
cross_le q d m s d' m' p h k =
    le_of_mul-le-mul_right {k = d} (omega (arith, mul-le-mul_right d' h, mul-le-mul_right s k)) p

pub fixed_lit-mono : (m e m' e' : ℕ) → m * 10 ^ e' ≤ m' * 10 ^ e → fixed_lit m e ≤ℤ fixed_lit m' e'
unfolding fixed_lit
fixed_lit-mono m e m' e' h =
    let q = m * scale / 10 ^ e in
    let low : q * 10 ^ e ≤ m * scale = div-mul-le_self (m * scale) (10 ^ e) in
    let high : q ≤ m' * scale / 10 ^ e' =
      (le-div_iff_mul-le (one-le-pow e' 10 (omega arith))).1
        (cross_le q (10 ^ e) m scale (10 ^ e') m' (one-le-pow e 10 (omega arith)) low h) in
    omega arith

pub fixed_round-le :
    (a : ℤ) (n : ℕ) → a ≤ℤ pos (n * scale) → (pos_part a + 500_000_000_000_000) / scale ≤ n
fixed_round-le (pos m) n h = omega arith
fixed_round-le (negsuc m) n h = omega arith

instance abbrev pub fixed_rounding : IsRounding ℤ
fixed_rounding = record {
  val = λ a. a;
  unit = scale;
  unit_pos = omega arith;
  lt-val = λ a b. refl;
  le-val = λ a b. refl;
  eq-val = λ a b. refl;
  add-le = λ a b c h. h;
  le-add = λ a b c h. h;
  sub-le = λ a b c h. h;
  le-sub = λ a b c h. h;
  mul-le = λ a b c h. floor_div-le (a *ℤ b) c scale (omega arith) h;
  le-mul = λ a b c h. le-floor_div (a *ℤ b) c scale (omega arith) h;
  mul_mono =
      λ a b c p h. floor_div_mono (a *ℤ b) (a *ℤ c) scale (omega arith) (*ℤ_mono_left a b c p h);
  div-le = λ a b c p h. fixed_div-le (a *ℤ pos scale) b c p h;
  le-div = λ a b c p h. le-fixed_div (a *ℤ pos scale) b c p h;
  neg-val = λ a. refl;
  sqrt_nonneg = λ a h. fixed_sqrt_nonneg a;
  exp_nonneg = fixed_exp_nonneg;
  zero-val = fixed_lit_zero;
  one-val = fixed_lit_one;
  lit_pos = fixed_lit_pos;
  lit-mono = fixed_lit-mono;
  of_usize-zero = refl;
  of_usize-mono = λ m n h. omega arith;
  round_usize-le = fixed_round-le;
  of_usize-one = refl;
}

pub fixed-IsExact : IsExact ℤ fixed_rounding
fixed-IsExact = record { add-val = λ a b. refl; sub-val = λ a b. refl }
