-- ===== src/Market/LobGenerator.antt =====
-- src/market/lob_generator.rs: a synthetic order book around a mid price.
use strata_exec.Prelude.{ℕ, zero, suc, List, [], ◌∷◌}
use strata_exec.Float.{Float, ◌⊕◌, ◌⊖◌, ◌⊗◌, ◌⊘◌, lit, one}
use strata_exec.Market.OrderBook.{OrderBook, new_book}

pub record LobGeneratorParams (F : Type 0) : Type 0 where
  pub num_levels : ℕ
  pub level_spacing : F
  pub base_quantity : F
  pub depth_decay : F
  pub spread_bps : F

-- g(k), g(k + 1) and so on, `count` values: the loop `for k in 0..n { push(g(k)) }`.
abbrev pub from_index {ℓ} : {A : Type ℓ} → (ℕ → A) → ℕ → ℕ → List A
from_index g k zero = []
from_index g k (suc count) = g k ∷ from_index g (suc k) count

module _ {F : Type 0} ⦃f : Float F⦄ where
  unfoldable pub default_params : LobGeneratorParams F
  default_params = record {
    num_levels = 10;
    level_spacing = lit 1 4;
    base_quantity = lit 1000 0;
    depth_decay = lit 85 2;
    spread_bps = lit 2 0;
  }

  unfoldable pub half_spread_of : F → F → LobGeneratorParams F → F
  half_spread_of mid_price volatility p =
      let vol_scalar = volatility ⊘ lit 20 2 in
      let effective_spread_bps = p.spread_bps ⊗ (one ⊕ vol_scalar) in
      mid_price ⊗ effective_spread_bps ⊘ lit 20000 0

  unfoldable pub level_quantity : LobGeneratorParams F → ℕ → F
  level_quantity p k = p.base_quantity ⊗ f.powi p.depth_decay k

  unfoldable pub generate_lob : F → F → LobGeneratorParams F → OrderBook F
  unfolding half_spread_of level_quantity
  generate_lob mid_price volatility p =
      let half_spread = half_spread_of mid_price volatility p in
      let level_step = mid_price ⊗ p.level_spacing in
      new_book
        (from_index
          (λ k. record {
            price = mid_price ⊕ half_spread ⊕ f.of_usize k ⊗ level_step;
            quantity = level_quantity p k;
          })
          0 p.num_levels)
        (from_index
          (λ k. record {
            price = mid_price ⊖ half_spread ⊖ f.of_usize k ⊗ level_step;
            quantity = level_quantity p k;
          })
          0 p.num_levels)
