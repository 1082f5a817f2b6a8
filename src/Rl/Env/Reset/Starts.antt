-- ===== src/Rl/Env/Reset/Starts.antt =====
-- src/bin/rl_env/env/reset.rs: the starts that `choose_start` allows.
use strata_exec.Prelude.{
  ℕ, zero, suc, ◌+◌, ◌-◌, ◌/◌, ◌%◌, ◌≤◌, ◌<◌, ◌≡◌, ap, Bool, true, false, ◌&&◌, Option, none, some,
  inl, inr, Result, ok, err, arith, Bool-cases, leb,
}
use strata_exec.Prelude.Int.{ℤ, pos, pos_part, neg_part}
use native.Mathlib.Nat.{mod-lt}
use strata_exec.Float.{Float, ◌⊗◌, ◌≤?◌, nought, one}
use strata_exec.Float.Laws.{IsRounding}
use strata_exec.Float.Order.{le→≼}
use strata_exec.Market.Simulators.{Rng}
use strata_exec.Rl.Env.{RlEnv}
use strata_exec.Rl.Env.Observe.{max_one}
use strata_exec.Rl.Env.Step.Fractions.{mul-le_right}
use strata_exec.Rl.Env.Reset.{
  EnvError, start_needs_steps, day_too_short, start_out_of_range, in_unit, place_start,
  start_within, start_of, choose_start,
}

leb→le : (a b : ℕ) → leb a b ≡ true → a ≤ b
leb→le a b h = ground arith

leb→lt : (a b : ℕ) → leb a b ≡ false → b < a
leb→lt a b h = ground arith

mod_max_one : (a m : ℕ) → a % max_one m < max_one m
mod_max_one a zero = omega arith
mod_max_one a (suc m) = mod-lt a (omega arith)

right_true : (a b : Bool) → (a && b) ≡ true → b ≡ true
right_true true b h = h
right_true false b h = ground arith

parts_zero : {z : ℤ} → z ≡ pos 0 → (pos_part z ≡ 0) × (neg_part z ≡ 0)
parts_zero e = (ap pos_part e, ap neg_part e)

module _ {F : Type 0} ⦃f : Float F⦄ where
  -- What `choose_start` may answer: to the number h of steps of an episode (none under the legacy
  -- protocol) and the requested place, in a day of n snapshots.
  pub data IsStart : Option ℕ → Option F → ℕ → Result EnvError ℕ → Type 0 where
    legacy : {n s : ℕ} → s < max_one (n / 3) → IsStart none none n (ok s)
    misplaced : {n : ℕ} {frac : F} → IsStart none (some frac) n (err start_needs_steps)
    drawn : {h n s : ℕ} → s + h + 1 ≤ n → IsStart (some h) none n (ok s)
    requested :
        {h n s : ℕ} {frac : F}
        → s + h + 1 ≤ n
        → in_unit frac ≡ true
        → IsStart (some h) (some frac) n (ok s)
    too_short :
        {h n : ℕ} {frac : Option F} → n < h + 1 → IsStart (some h) frac n (err day_too_short)
    outside :
        {h n : ℕ} {frac : F}
        → h + 1 ≤ n
        → in_unit frac ≡ false
        → IsStart (some h) (some frac) n (err start_out_of_range)

module _ {F G : Type 0} ⦃f : Float F⦄ ⦃r : IsRounding F⦄ (draws : Rng F G)
    (in_range : (hi : ℕ) (g : G) → (draws.range_usize 0 hi g).0 ≤ hi) where
  within : (m : ℕ) (s : F) → in_unit s ≡ true → f.round_usize (s ⊗ f.of_usize m) ≤ m
  within m s k = r.round_usize-le (s ⊗ f.of_usize m) m (
      mul-le_right s (f.of_usize m)
        (omega (arith, r.of_usize-mono 0 m (omega arith), parts_zero r.of_usize-zero))
        (le→≼ s one (right_true (nought ≤? s) (s ≤? one) k)))

  placed-IsStart :
      (h n m seed : ℕ) (frac : Option F)
      → m + (h + 1) ≡ n
      → IsStart (some h) frac n (place_start draws frac m seed)
  unfolding place_start
  placed-IsStart h n m seed none e = drawn (omega (arith, in_range m (draws.seed_from_u64 _)))
  placed-IsStart h n m seed (some s) e = elim (Bool-cases (in_unit s)) [
    | inr k ↦ rw k (outside (omega (arith, e)) k)
    | inl k ↦ rw k (requested (omega (arith, e, within m s k)) k)
  ]

  start_of-IsStart :
      (steps : Option ℕ) (frac : Option F) (n seed : ℕ)
      → IsStart steps frac n (start_of draws steps frac n seed)
  unfolding start_of start_within
  start_of-IsStart none none n seed = legacy (mod_max_one seed (n / 3))
  start_of-IsStart none (some s) n seed = misplaced
  start_of-IsStart (some h) frac n seed = elim (Bool-cases (leb (h + 1) n)) [
    | inl k ↦ rw k (placed-IsStart h n (n - (h + 1)) seed frac (omega (arith, leb→le (h + 1) n k)))
    | inr k ↦ rw k (too_short (omega (arith, leb→lt (h + 1) n k)))
  ]

  -- The answer to the choice of a start in a day of n snapshots. Under the protocol with a fixed number h
  -- of steps: a day of fewer than h + 1 snapshots is refused; in a longer one a requested place outside
  -- [0, 1] is refused, and every start that is given, drawn or requested, leaves h further snapshots.
  -- Under the legacy protocol a requested place is refused, and otherwise the start is below a third of
  -- n, or 0 where n is less than 3, whether or not enough snapshots follow. The generator's range is
  -- assumed to keep its upper end.
  pub choose_start-IsStart :
      (e : RlEnv F G) (n seed : ℕ)
      → IsStart e.cfg.episode_steps e.start_frac n (choose_start draws e n seed).1
  unfolding choose_start
  choose_start-IsStart e n seed = start_of-IsStart e.cfg.episode_steps e.start_frac n seed
