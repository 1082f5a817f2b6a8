-- ===== src/Rl/Env/Step/Fractions.antt =====
-- The shares of the remaining inventory that an action may sell.
use strata_exec.Prelude.{ℕ, zero, suc, ◌-◌, ◌^◌, ◌≤◌, List, [], ◌∷◌, All, get_elem?, length, arith}
use strata_exec.Prelude.Int.{pos, ◌≤ℤ◌, *ℤ_mono_left, *ℤ_comm}
use strata_exec.Float.{Float, ◌⊗◌, lit, nought, one}
use strata_exec.Float.Laws.{IsRounding}
use strata_exec.Float.Order.{◌≼◌, IsNonneg, lit_nonneg, mul-IsNonneg}
use strata_exec.Market.OrderBook.{unwrap_or}
use strata_exec.Market.LobReplay.{min}
use strata_exec.Rl.Config.{action_fractions}
use strata_exec.Rl.Env.Step.{fraction_of}

-- A number between 0 and 1.
abbrev pub IsFraction : {F : Type 0} ⦃f : Float F⦄ → IsRounding F → F → Type 0
IsFraction r a = (pos 0 ≤ℤ r.val a) × (r.val a ≤ℤ r.val (lit 1 0))

All-get :
    {F : Type 0} (P : F → Type 0) (d : F) (xs : List F) (i : ℕ)
    → P d
    → All P xs
    → P (unwrap_or (get_elem? xs i) d)
All-get P d [] i p h = p
All-get P d (x ∷ xs) zero p h = h.0
All-get P d (x ∷ xs) (suc i) p h = All-get P d xs i p h.1

lit-IsFraction :
    {F : Type 0} ⦃f : Float F⦄ (r : IsRounding F) (m e : ℕ) → m ≤ 10 ^ e → IsFraction r (f.lit m e)
lit-IsFraction r m e h = (lit_nonneg r m e, r.lit-mono m e 1 0 (omega arith))

action_fractions-IsFraction :
    {F : Type 0} ⦃f : Float F⦄ (r : IsRounding F) → All (IsFraction r) (action_fractions {F = F})
unfolding action_fractions
action_fractions-IsFraction r =
    let l = lit-IsFraction r in
    (
      l 0 0 (omega arith),
      (
        l 1 3 (omega arith),
        (
          l 3 3 (omega arith),
          (
            l 5 3 (omega arith),
            (
              l 8 3 (omega arith),
              (
                l 10 3 (omega arith),
                (
                  l 15 3 (omega arith),
                  (
                    l 20 3 (omega arith),
                    (
                      l 30 3 (omega arith),
                      (
                        l 50 3 (omega arith),
                        (
                          l 70 3 (omega arith),
                          (
                            l 100 3 (omega arith),
                            (
                              l 150 3 (omega arith),
                              (
                                l 200 3 (omega arith),
                                (
                                  l 300 3 (omega arith),
                                  (
                                    l 400 3 (omega arith),
                                    (
                                      l 500 3 (omega arith),
                                      (
                                        l 700 3 (omega arith),
                                        (l 900 3 (omega arith), (l 1000 3 (omega arith), tt)),
                                      ),
                                    ),
                                  ),
                                ),
                              ),
                            ),
                          ),
                        ),
                      ),
                    ),
                  ),
                ),
              ),
            ),
          ),
        ),
      ),
    )

pub fraction_of-IsFraction :
    {F : Type 0} ⦃f : Float F⦄ (r : IsRounding F) (action : ℕ) → IsFraction r (fraction_of action)
unfolding fraction_of
fraction_of-IsFraction {F = F} r action =
    All-get (IsFraction r) nought action_fractions
      (min action (length (action_fractions {F = F}) - 1)) (lit-IsFraction r 0 0 (omega arith))
      (action_fractions-IsFraction r)

module _ {F : Type 0} ⦃f : Float F⦄ ⦃r : IsRounding F⦄ where
  -- A factor of at most 1 on the left does not make a number larger.
  pub mul-le_right : (a b : F) → IsNonneg b → a ≼ one → a ⊗ b ≼ b
  mul-le_right a b p q = r.mul-le a b b (
      rw (*ℤ_comm (r.val a) (r.val b))
        (*ℤ_mono_left (r.val b) (r.val a) (pos r.unit) p (ground (arith, r.one-val))))

  pub intended_bounds :
      (action : ℕ) (remaining : F)
      → IsNonneg remaining
      → IsNonneg (fraction_of action ⊗ remaining) × (fraction_of action ⊗ remaining ≼ remaining)
  intended_bounds action remaining h =
      let share = fraction_of-IsFraction r action in
      (
        mul-IsNonneg (fraction_of action) remaining share.0 h,
        mul-le_right (fraction_of action) remaining h share.1,
      )
