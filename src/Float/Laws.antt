-- ===== src/Float/Laws.antt =====
-- What IEEE 754 arithmetic promises of finite values. `val` is the exact value of a number, counted
-- in a quantum of which every number is a whole multiple (2^-1074 for `f64`), and `unit` is the
-- value of 1. Rounding is faithful: the result of an operation does not pass any number that the
-- exact result does not pass, and a product is monotone. Sums are NOT assumed exact here; `IsExact` adds that, which
-- holds of `f64` as long as the operands are multiples of a common power of two below 2^53 of them.
use strata_exec.Prelude.{ℕ, ◌*◌, ◌^◌, ◌≤◌, ◌<◌, ◌≡◌}
use strata_exec.Prelude.Int.{ℤ, pos, ◌+ℤ◌, ◌-ℤ◌, ◌*ℤ◌, ◌≤ℤ◌, ◌<ℤ◌, ltb_ℤ, leb_ℤ, eqb_ℤ}
use strata_exec.Float.Ops.{Float}

pub record IsRounding (F : Type 0) ⦃f : Float F⦄ : Type 0 where
  pub val : F → ℤ
  pub unit : ℕ
  pub unit_pos : 0 < unit
  pub lt-val : (a b : F) → f.lt a b ≡ ltb_ℤ (val a) (val b)
  pub le-val : (a b : F) → f.le a b ≡ leb_ℤ (val a) (val b)
  pub eq-val : (a b : F) → f.eq a b ≡ eqb_ℤ (val a) (val b)
  pub add-le : (a b c : F) → val a +ℤ val b ≤ℤ val c → val (f.add a b) ≤ℤ val c
  pub le-add : (a b c : F) → val c ≤ℤ val a +ℤ val b → val c ≤ℤ val (f.add a b)
  pub sub-le : (a b c : F) → val a -ℤ val b ≤ℤ val c → val (f.sub a b) ≤ℤ val c
  pub le-sub : (a b c : F) → val c ≤ℤ val a -ℤ val b → val c ≤ℤ val (f.sub a b)
  pub mul-le : (a b c : F) → val a *ℤ val b ≤ℤ val c *ℤ pos unit → val (f.mul a b) ≤ℤ val c
  pub le-mul : (a b c : F) → val c *ℤ pos unit ≤ℤ val a *ℤ val b → val c ≤ℤ val (f.mul a b)
  pub mul_mono : (a b c : F) → pos 0 ≤ℤ val a → val b ≤ℤ val c → val (f.mul a b) ≤ℤ val (f.mul a c)
  pub div-le :
      (a b c : F) → pos 0 <ℤ val b → val a *ℤ pos unit ≤ℤ val c *ℤ val b → val (f.div a b) ≤ℤ val c
  pub le-div :
      (a b c : F) → pos 0 <ℤ val b → val c *ℤ val b ≤ℤ val a *ℤ pos unit → val c ≤ℤ val (f.div a b)
  pub neg-val : (a : F) → val (f.neg a) ≡ pos 0 -ℤ val a
  pub sqrt_nonneg : (a : F) → pos 0 ≤ℤ val a → pos 0 ≤ℤ val (f.sqrt a)
  pub exp_nonneg : (a : F) → pos 0 ≤ℤ val (f.exp a)
  pub zero-val : (e : ℕ) → val (f.lit 0 e) ≡ pos 0
  pub one-val : val (f.lit 1 0) ≡ pos unit
  pub lit_pos : (m e : ℕ) → 0 < m → e ≤ 15 → pos 0 <ℤ val (f.lit m e)
  pub lit-mono : (m e m' e' : ℕ) → m * 10 ^ e' ≤ m' * 10 ^ e → val (f.lit m e) ≤ℤ val (f.lit m' e')
  pub of_usize-zero : val (f.of_usize 0) ≡ pos 0
  pub of_usize-mono : (m n : ℕ) → m ≤ n → val (f.of_usize m) ≤ℤ val (f.of_usize n)
  pub round_usize-le : (a : F) (n : ℕ) → val a ≤ℤ val (f.of_usize n) → f.round_usize a ≤ n
  pub of_usize-one : val (f.of_usize 1) ≡ pos unit

pub record IsExact (F : Type 0) ⦃f : Float F⦄ (r : IsRounding F) : Type 0 where
  pub add-val : (a b : F) → r.val (f.add a b) ≡ r.val a +ℤ r.val b
  pub sub-val : (a b : F) → r.val (f.sub a b) ≡ r.val a -ℤ r.val b
