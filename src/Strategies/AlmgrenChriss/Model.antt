-- ===== src/Strategies/AlmgrenChriss/Model.antt =====
-- The model of src/strategies/optimal.rs: which parameters are accepted, and what its schedule sells.
use strata_exec.Prelude.{
  ℕ, ◌≤◌, ◌≡◌, refl, Option, none, some, length, inl, inr, arith, Bool-cases, Result, ok, err, ltb,
  ltb→le,
}
use strata_exec.Prelude.Int.{pos}
use strata_exec.Float.{Float, ◌⊗◌, ◌<?◌, ◌≤?◌, lit, nought}
use strata_exec.Float.Laws.{IsRounding, IsExact}
use strata_exec.Float.Order.{◌≼◌, ◌≺◌, not_le→≺, not_lt→≼, le→≼, lt→≺}
use strata_exec.Float.Exact.{Balance, total}
use strata_exec.Strategies.AlmgrenChriss.{
  AlmgrenChriss, ModelError, bad_inventory, bad_eta, bad_lambda, bad_sigma, bad_horizon,
  recommended_horizon, choose_horizon, with_horizon, new_model, schedule,
}
use strata_exec.Strategies.AlmgrenChriss.Inventory.{schedule-total}

-- The horizon that goes with a given one, or else is derived.
abbrev pub IsHorizon : Option ℕ → ℕ → Type 0
IsHorizon none n = (1 ≤ n) × (n ≤ 200)
IsHorizon (some h) n = (1 ≤ h) × (n ≡ h)

IsHorizon-pos : (override : Option ℕ) (n : ℕ) → IsHorizon override n → 1 ≤ n
IsHorizon-pos none n h = h.0
IsHorizon-pos (some given) n h = omega (arith, h)

module _ {F : Type 0} ⦃f : Float F⦄ ⦃r : IsRounding F⦄ where
  -- What an accepted model is: admissible parameters, stored as they were given.
  pub record IsModel (t e l s : F) (override : Option ℕ) (m : AlmgrenChriss F) : Type 0 where
    pub inventory_pos : nought ≺ t
    pub eta_pos : nought ≺ e
    pub lambda_nonneg : nought ≼ l
    pub sigma_nonneg : nought ≼ s
    pub inventory_kept : m.total_inventory ≡ t
    pub eta_kept : m.eta ≡ e
    pub lambda_kept : m.lambda ≡ l
    pub sigma_kept : m.sigma ≡ s
    pub gamma_derived : m.gamma ≡ lit 1 1 ⊗ e
    pub horizon : IsHorizon override m.horizon

  -- Why parameters are refused: the first that is not admissible, which the refusal quotes.
  abbrev pub IsRefusal : F → F → F → F → Option ℕ → ModelError F → Type 0
  IsRefusal t e l s override (bad_inventory v) = (v ≡ t) × (t ≼ nought)
  IsRefusal t e l s override (bad_eta v) = (v ≡ e) × (nought ≺ t) × (e ≼ nought)
  IsRefusal t e l s override (bad_lambda v) = (v ≡ l) × (nought ≺ t) × (nought ≺ e) × (l ≺ nought)
  IsRefusal t e l s override (bad_sigma v) =
      (v ≡ s) × (nought ≺ t) × (nought ≺ e) × (nought ≼ l) × (s ≺ nought)
  IsRefusal t e l s override (bad_horizon h) =
      (override ≡ some h) × (h ≡ 0) × (nought ≺ t) × (nought ≺ e) × (nought ≼ l) × (nought ≼ s)

  -- A model, or a refusal, and which.
  abbrev pub Answers : F → F → F → F → Option ℕ → Result (ModelError F) (AlmgrenChriss F) → Type 0
  Answers t e l s override (ok m) = IsModel t e l s override m
  Answers t e l s override (err x) = IsRefusal t e l s override x

  with_horizon-Answers :
      (t e l s : F) (override : Option ℕ)
      → nought ≺ t
      → nought ≺ e
      → nought ≼ l
      → nought ≼ s
      → Answers t e l s override (with_horizon t e l s (choose_horizon e l s override))
  unfolding with_horizon choose_horizon recommended_horizon
  with_horizon-Answers t e l s none a b c d = record {
    inventory_pos = a;
    eta_pos = b;
    lambda_nonneg = c;
    sigma_nonneg = d;
    inventory_kept = refl;
    eta_kept = refl;
    lambda_kept = refl;
    sigma_kept = refl;
    gamma_derived = refl;
    horizon = (omega arith, omega arith);
  }
  with_horizon-Answers t e l s (some h) a b c d = elim (Bool-cases (ltb h 1)) [
    | inl k ↦ rw k (refl, ground arith, a, b, c, d)
    | inr k ↦ rw k (record {
      inventory_pos = a;
      eta_pos = b;
      lambda_nonneg = c;
      sigma_nonneg = d;
      inventory_kept = refl;
      eta_kept = refl;
      lambda_kept = refl;
      sigma_kept = refl;
      gamma_derived = refl;
      horizon = (ltb→le h 1 k, refl);
    })
  ]

  new_model-Answers :
      (t e l s : F) (override : Option ℕ) → Answers t e l s override (new_model t e l s override)
  unfolding new_model
  new_model-Answers t e l s override = elim (Bool-cases (t ≤? nought)) [
    | inl a ↦ rw a (refl, le→≼ t nought a)
    | inr a ↦
        let t_pos = not_le→≺ t nought a in
        elim (Bool-cases (e ≤? nought)) [
          | inl b ↦ rw (a, b) (refl, t_pos, le→≼ e nought b)
          | inr b ↦
              let e_pos = not_le→≺ e nought b in
              elim (Bool-cases (l <? nought)) [
                | inl c ↦ rw (a, b, c) (refl, t_pos, e_pos, lt→≺ l nought c)
                | inr c ↦
                    let l_nonneg = not_lt→≼ l nought c in
                    elim (Bool-cases (s <? nought)) [
                      | inl d ↦ rw (a, b, c, d) (refl, t_pos, e_pos, l_nonneg, lt→≺ s nought d)
                      | inr d ↦
                          rw (a, b, c, d)
                            (with_horizon-Answers t e l s override t_pos e_pos l_nonneg
                              (not_lt→≼ s nought d))
                    ]
              ]
        ]
  ]

  module _ (x : IsExact F r) where
    -- What `new` answers, and the schedule of the model it makes.
    abbrev pub Plans : F → F → F → F → Option ℕ → Result (ModelError F) (AlmgrenChriss F) → Type 0
    Plans t e l s override (ok m) =
        IsModel t e l s override m
        × IsHorizon override (length (schedule m))
        × Balance (total (schedule m)) (pos 0) (r.val t) (pos 0)
    Plans t e l s override (err error) = IsRefusal t e l s override error

    plan :
        (t e l s : F) (override : Option ℕ) (o : Result (ModelError F) (AlmgrenChriss F))
        → Answers t e l s override o
        → Plans t e l s override o
    plan t e l s override (err error) h = h
    plan t e l s override (ok m) h =
        let (l_eq, sum) = schedule-total x m (IsHorizon-pos override m.horizon h.horizon) in
        (h, rw l_eq h.horizon, rw (← h.inventory_kept) sum)

    -- The constructor of the model on any parameters, sums being exact. It answers a model exactly when
    -- the inventory and the impact coefficient are positive, the risk aversion and the volatility are
    -- not negative and a given horizon is at least 1; and otherwise a refusal that quotes the first
    -- parameter that fails. The model stores the parameters. Its schedule sells exactly the
    -- inventory, in as many trades as the given horizon, or in 1 to 200 where none is given.
    pub new_model-Plans :
        (t e l s : F) (override : Option ℕ) → Plans t e l s override (new_model t e l s override)
    new_model-Plans t e l s override = plan t e l s override _ (new_model-Answers t e l s override)
