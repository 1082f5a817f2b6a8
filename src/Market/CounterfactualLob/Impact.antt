-- ===== src/Market/CounterfactualLob/Impact.antt =====
-- src/market/counterfactual_lob.rs: the range of the impact, whatever is sold, skipped or restarted.
use strata_exec.Prelude.{ℕ, ◌≡◌, refl, All, All-append, All-retain, arith, inl, inr, Bool-cases}
use strata_exec.Prelude.Int.{pos, zero-*ℤ, *ℤ_comm, +ℤ_parts}
use strata_exec.Float.{Float, ◌⊕◌, ◌⊗◌, ◌⊘◌, ◌<?◌, ◌≤?◌, lit, nought, fmax, fsum, sum_from}
use strata_exec.Float.Laws.{IsRounding}
use strata_exec.Float.Order.{
  ◌≼◌, IsNonneg, nought_parts, lit_nonneg, lt→≺, not_le→≺, ≼→le, fmin-le_right, le-fmin,
  fmax-ge_right, add-IsNonneg, mul-IsNonneg, div-IsNonneg,
}
use strata_exec.Market.LobReplay.{LobReplay}
use strata_exec.Market.CounterfactualLob.{
  CounterfactualLobConfig, CounterfactualLob, rewind, seek_to, new_lob, impact_of, decayed_sales,
  effective_sold_btc, total_residual_impact, permanent_impact, record_sale, prune,
  advance_without_trade, record_trade_and_advance, restart, reset, seek, set_btc_scale,
}

module _ {F : Type 0} ⦃f : Float F⦄ where
  -- The books that the methods reach from a new one.
  pub data IsReached (config : CounterfactualLobConfig F) : CounterfactualLob F → Type 0 where
    started : (replay : LobReplay F) → IsReached config (new_lob replay config)
    traded :
        {c : CounterfactualLob F} (qty : F)
        → IsReached config c
        → IsReached config (record_trade_and_advance c qty)
    skipped :
        {c : CounterfactualLob F} → IsReached config c → IsReached config (advance_without_trade c)
    was_reset : {c : CounterfactualLob F} → IsReached config c → IsReached config (reset c)
    sought :
        {c : CounterfactualLob F} (offset : ℕ)
        → IsReached config c
        → IsReached config (seek c offset)
    scaled :
        {c : CounterfactualLob F} (btc_scale : F)
        → IsReached config c
        → IsReached config (set_btc_scale c btc_scale)

module _ {F : Type 0} ⦃f : Float F⦄ ⦃r : IsRounding F⦄ where
  -- The numbers of the configuration that enter the impact are not negative.
  pub record IsConfig (k : CounterfactualLobConfig F) : Type 0 where
    pub permanent_nonneg : IsNonneg k.permanent_fraction
    pub temporary_nonneg : IsNonneg k.temporary_fraction
    pub coefficient_nonneg : IsNonneg k.impact_coefficient
    pub sigma_nonneg : IsNonneg k.sigma

  record IsSound (c : CounterfactualLob F) : Type 0 where
    config : IsConfig c.config
    sold_nonneg : IsNonneg c.sold_btc
    sales_nonneg : All (λ sale. IsNonneg sale.1) c.temporary_impacts

  record_sale-IsSound : (c : CounterfactualLob F) (q : F) → IsSound c → IsSound (record_sale c q)
  unfolding record_sale
  record_sale-IsSound c q s = elim (Bool-cases (nought <? q)) [
    | inl e ↦
        let h = lt→≺ nought q e in
        rw e (record {
          config = s.config;
          sold_nonneg = add-IsNonneg c.sold_btc q s.sold_nonneg (omega (arith, h, nought_parts r));
          sales_nonneg =
              All-append _ c.temporary_impacts _ s.sales_nonneg
                (omega (arith, h, nought_parts r), tt);
        })
    | inr e ↦ rw e s
  ]

  prune-IsSound : (c : CounterfactualLob F) → IsSound c → IsSound (prune c)
  unfolding prune
  prune-IsSound c s = record {
    config = s.config;
    sold_nonneg = s.sold_nonneg;
    sales_nonneg = All-retain _ _ c.temporary_impacts s.sales_nonneg;
  }

  restart-IsSound :
      (c : CounterfactualLob F) (replay : LobReplay F)
      → IsConfig c.config
      → IsSound (restart c replay)
  unfolding restart
  restart-IsSound c replay k = record {
    config = k;
    sold_nonneg = omega (arith, nought_parts r);
    sales_nonneg = tt;
  }

  advance_without_trade-IsSound :
      (c : CounterfactualLob F) → IsSound c → IsSound (advance_without_trade c)
  unfolding advance_without_trade
  advance_without_trade-IsSound c s = record {
    config = s.config;
    sold_nonneg = s.sold_nonneg;
    sales_nonneg = s.sales_nonneg;
  }

  record_trade_and_advance-IsSound :
      (c : CounterfactualLob F) (q : F) → IsSound c → IsSound (record_trade_and_advance c q)
  unfolding record_trade_and_advance
  record_trade_and_advance-IsSound c q s =
      let sold = record_sale c (fmax q nought ⊗ c.config.btc_scale) in
      advance_without_trade-IsSound (prune sold)
        (prune-IsSound sold (record_sale-IsSound c (fmax q nought ⊗ c.config.btc_scale) s))

  reset-IsSound : (c : CounterfactualLob F) → IsSound c → IsSound (reset c)
  unfolding reset
  reset-IsSound c s = restart-IsSound c (rewind c.replay) s.config

  seek-IsSound : (c : CounterfactualLob F) (offset : ℕ) → IsSound c → IsSound (seek c offset)
  unfolding seek
  seek-IsSound c offset s = restart-IsSound c (seek_to c.replay offset) s.config

  set_btc_scale-IsSound :
      (c : CounterfactualLob F) (btc_scale : F) → IsSound c → IsSound (set_btc_scale c btc_scale)
  unfolding set_btc_scale
  set_btc_scale-IsSound c btc_scale s = record {
    config = record {
      permanent_nonneg = s.config.permanent_nonneg;
      temporary_nonneg = s.config.temporary_nonneg;
      coefficient_nonneg = s.config.coefficient_nonneg;
      sigma_nonneg = s.config.sigma_nonneg;
    };
    sold_nonneg = s.sold_nonneg;
    sales_nonneg = s.sales_nonneg;
  }

  reached-IsSound :
      {config : CounterfactualLobConfig F} {c : CounterfactualLob F}
      → IsReached config c
      → IsConfig config
      → IsSound c
  reached-IsSound (started replay) k =
      unfold new_lob in
      record { config = k; sold_nonneg = omega (arith, nought_parts r); sales_nonneg = tt }
  reached-IsSound (traded qty h) k = record_trade_and_advance-IsSound _ qty (reached-IsSound h k)
  reached-IsSound (skipped h) k = advance_without_trade-IsSound _ (reached-IsSound h k)
  reached-IsSound (was_reset h) k = reset-IsSound _ (reached-IsSound h k)
  reached-IsSound (sought offset h) k = seek-IsSound _ offset (reached-IsSound h k)
  reached-IsSound (scaled btc_scale h) k = set_btc_scale-IsSound _ btc_scale (reached-IsSound h k)

  impact_of_bounds :
      (c : CounterfactualLob F) (btc : F)
      → IsConfig c.config
      → IsNonneg (impact_of c btc) × (impact_of c btc ≼ lit 95 2)
  unfolding impact_of
  impact_of_bounds c btc k = elim (Bool-cases (btc ≤? nought)) [
    | inl e ↦ rw e (omega (arith, nought_parts r), omega (arith, nought_parts r, lit_nonneg r 95 2))
    | inr e ↦
        let volume = fmax c.config.adv_btc (lit 1 9) in
        let raw = c.config.impact_coefficient ⊗ c.config.sigma ⊗ f.sqrt (btc ⊘ volume) in
        let scale_nonneg =
          mul-IsNonneg c.config.impact_coefficient c.config.sigma k.coefficient_nonneg
            k.sigma_nonneg in
        let root_nonneg = r.sqrt_nonneg (btc ⊘ volume) (
          div-IsNonneg btc volume (omega (arith, nought_parts r, not_le→≺ {F = F} btc nought e)) (
            omega (
              arith,
              nought_parts r,
              r.lit_pos 1 9 (omega arith) (omega arith),
              fmax-ge_right c.config.adv_btc (lit 1 9),
            ))) in
        let raw_nonneg =
          mul-IsNonneg (c.config.impact_coefficient ⊗ c.config.sigma) (f.sqrt (btc ⊘ volume))
            scale_nonneg root_nonneg in
        rw e (
          omega (
            arith,
            nought_parts r,
            le-fmin raw (lit 95 2) nought (omega (arith, nought_parts r, raw_nonneg))
                (omega (arith, nought_parts r, lit_nonneg r 95 2)),
          ),
          fmin-le_right raw (lit 95 2),
        )
  ]

  mul-nought-le : (a : F) → a ⊗ nought ≼ nought
  mul-nought-le a = r.mul-le a nought nought (
      rw (*ℤ_comm (r.val a) (r.val nought)) (
        omega (
          arith,
          zero-*ℤ (r.val nought) (r.val a) (r.zero-val 0),
          zero-*ℤ (r.val nought) (pos r.unit) (r.zero-val 0),
        )))

  impact_of-nought : (c : CounterfactualLob F) (btc : F) → btc ≼ nought → impact_of c btc ≡ nought
  unfolding impact_of
  impact_of-nought c btc h = rw (≼→le btc nought h) refl

  restart-total_residual_impact :
      (c : CounterfactualLob F) (replay : LobReplay F)
      → (total_residual_impact (restart c replay) ≡ nought)
        × (permanent_impact (restart c replay) ≡ nought)
  unfolding restart total_residual_impact permanent_impact effective_sold_btc decayed_sales fsum
      sum_from
  restart-total_residual_impact c replay =
      let p = c.config.permanent_fraction in
      let t = c.config.temporary_fraction in
      (
        impact_of-nought (restart c replay) (p ⊗ nought ⊕ t ⊗ nought) (
            r.add-le (p ⊗ nought) (t ⊗ nought) nought (
              omega (
                arith,
                nought_parts r,
                mul-nought-le p,
                mul-nought-le t,
                +ℤ_parts (r.val (p ⊗ nought)) (r.val (t ⊗ nought)),
              ))),
        impact_of-nought (restart c replay) (p ⊗ nought) (mul-nought-le p),
      )

  -- Whatever is sold, skipped, sought or reset, the price impact of a book whose configuration has no
  -- negative fraction, coefficient or volatility is between 0 and 0.95, the permanent part too; the
  -- quantity sold and each recorded sale are not negative.
  pub total_residual_impact_bounds :
      (config : CounterfactualLobConfig F) (c : CounterfactualLob F)
      → IsConfig config
      → IsReached config c
      → IsNonneg (total_residual_impact c)
        × (total_residual_impact c ≼ lit 95 2)
        × IsNonneg (permanent_impact c)
        × (permanent_impact c ≼ lit 95 2)
        × IsNonneg c.sold_btc
        × All (λ sale. IsNonneg sale.1) c.temporary_impacts
  unfolding total_residual_impact permanent_impact
  total_residual_impact_bounds config c k h =
      let s = reached-IsSound h k in
      let total = impact_of_bounds c (effective_sold_btc c) s.config in
      let permanent = impact_of_bounds c (c.config.permanent_fraction ⊗ c.sold_btc) s.config in
      (total.0, total.1, permanent.0, permanent.1, s.sold_nonneg, s.sales_nonneg)

  -- A reset and a seek leave no impact, total or permanent.
  pub seek-total_residual_impact :
      (c : CounterfactualLob F) (offset : ℕ)
      → (total_residual_impact (seek c offset) ≡ nought)
        × (permanent_impact (seek c offset) ≡ nought)
        × (total_residual_impact (reset c) ≡ nought)
        × (permanent_impact (reset c) ≡ nought)
  unfolding seek reset
  seek-total_residual_impact c offset =
      let sought = restart-total_residual_impact c (seek_to c.replay offset) in
      let was_reset = restart-total_residual_impact c (rewind c.replay) in
      (sought.0, sought.1, was_reset.0, was_reset.1)
