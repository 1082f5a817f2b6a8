-- ===== src/Market/OrderBook.antt =====
-- src/market/order_book.rs: the limit order book and the depth-consuming fill.
pub mod Walk
pub mod Fill
use strata_exec.Prelude.{
  ℕ, ◌+◌, Bool, true, false, Option, none, some, List, [], ◌∷◌, map, if◌then◌else◌,
}
use strata_exec.Float.{Float, ◌⊕◌, ◌⊖◌, ◌⊗◌, ◌⊘◌, ◌<?◌, ◌≤?◌, lit, nought, one, clamp, fsum}

pub record PriceLevel (F : Type 0) : Type 0 where
  pub price : F
  pub quantity : F

pub record OrderBook (F : Type 0) : Type 0 where
  pub asks : List (PriceLevel F)
  pub bids : List (PriceLevel F)
  pub timestamp : ℕ

pub record FillResult (F : Type 0) : Type 0 where
  pub filled_qty : F
  pub avg_fill_price : F
  pub levels_consumed : ℕ
  pub residual_qty : F
  pub real_spread_cost : F
  pub slippage_from_mid : F

-- The variables of the loop of `fill_side` when it ends, `ladder` among them.
pub record Walked (F : Type 0) : Type 0 where
  pub ladder : List (PriceLevel F)
  pub remaining : F
  pub notional_filled : F
  pub filled_qty : F
  pub levels_consumed : ℕ

abbrev pub first_price : {F : Type 0} → List (PriceLevel F) → Option F
first_price [] = none
first_price (l ∷ ls) = some l.price

abbrev pub best_ask : {F : Type 0} → OrderBook F → Option F
best_ask b = first_price b.asks

abbrev pub best_bid : {F : Type 0} → OrderBook F → Option F
best_bid b = first_price b.bids

abbrev pub bid_levels : {F : Type 0} → OrderBook F → List (PriceLevel F)
bid_levels b = b.bids

abbrev pub new_book : {F : Type 0} → List (PriceLevel F) → List (PriceLevel F) → OrderBook F
new_book asks bids = record { asks = asks; bids = bids; timestamp = 0 }

-- `Some(g(a?, b?))`
abbrev pub both : {F : Type 0} → (F → F → F) → Option F → Option F → Option F
both g (some a) (some b) = some (g a b)
both g none _ = none
both g (some a) none = none

-- `take_while(p)`
unfoldable pub take_while {ℓ} : {A : Type ℓ} → (A → Bool) → List A → List A
take_while p [] = []
take_while p (x ∷ xs) = let rest = take_while p xs in if p x then x ∷ rest else []

abbrev pub unwrap_or {ℓ} : {A : Type ℓ} → Option A → A → A
unwrap_or none d = d
unwrap_or (some a) d = a

module _ {F : Type 0} ⦃f : Float F⦄ where
  unfoldable pub mid_price : OrderBook F → Option F
  mid_price b = both (λ ask bid. (ask ⊕ bid) ⊘ lit 2 0) (best_ask b) (best_bid b)

  unfoldable pub spread : OrderBook F → Option F
  spread b = both (λ ask bid. ask ⊖ bid) (best_ask b) (best_bid b)

  unfoldable pub half_spread : OrderBook F → Option F
  unfolding spread
  half_spread b = elim (spread b) [ none ↦ none | some s ↦ some (s ⊘ lit 2 0) ]

  unfoldable pub scale_level : F → F → PriceLevel F → PriceLevel F
  scale_level price_factor qty_factor l = record {
    price = l.price ⊗ price_factor;
    quantity = l.quantity ⊗ qty_factor;
  }

  unfoldable pub rescale : OrderBook F → F → OrderBook F
  rescale b factor = record {
    asks = map (λ l. record { price = l.price ⊗ factor; quantity = l.quantity }) b.asks;
    bids = map (λ l. record { price = l.price ⊗ factor; quantity = l.quantity }) b.bids;
    timestamp = b.timestamp;
  }

  unfoldable pub rescale_full : OrderBook F → F → F → OrderBook F
  unfolding scale_level
  rescale_full b price_factor qty_factor = record {
    asks = map (scale_level price_factor qty_factor) b.asks;
    bids = map (scale_level price_factor qty_factor) b.bids;
    timestamp = b.timestamp;
  }

  abbrev pub quantities : List (PriceLevel F) → List F
  quantities [] = []
  quantities (l ∷ ls) = l.quantity ∷ quantities ls

  unfoldable pub total_bid_depth : OrderBook F → F
  unfolding fsum
  total_bid_depth b = fsum (quantities b.bids)

  unfoldable pub scale_quantity : F → PriceLevel F → PriceLevel F
  scale_quantity factor l = record l { quantity = l.quantity ⊗ factor }

  unfoldable pub scale_bid_depth : OrderBook F → F → OrderBook F
  unfolding scale_quantity clamp
  scale_bid_depth b factor = record b {
    bids = map (scale_quantity (clamp factor (lit 5 2) one)) b.bids;
  }

  unfoldable pub ask_depth_up_to : OrderBook F → F → F
  unfolding take_while fsum
  ask_depth_up_to b price = fsum (quantities (take_while (λ l. l.price ≤? price) b.asks))

  unfoldable pub bid_depth_up_to : OrderBook F → F → F
  unfolding take_while fsum
  bid_depth_up_to b price = fsum (quantities (take_while (λ l. price ≤? l.price) b.bids))

  -- The loop of `fill_side` from the level at which it stands; a level that is consumed whole is
  -- removed, one that is consumed in part stays, and `remaining` is then 0.
  unfoldable pub walk : F → F → F → ℕ → List (PriceLevel F) → Walked F
  walk remaining notional filled levels [] = record {
    ladder = [];
    remaining = remaining;
    notional_filled = notional;
    filled_qty = filled;
    levels_consumed = levels;
  }
  walk remaining notional filled levels (l ∷ ls) =
      let whole = l.quantity ≤? remaining in
      let taken = if whole then l.quantity else remaining in
      let left = if whole then remaining ⊖ l.quantity else nought in
      let rest = walk left (notional ⊕ taken ⊗ l.price) (filled ⊕ taken) (levels + 1) ls in
      let stopped : Walked F = record {
        ladder = l ∷ ls;
        remaining = remaining;
        notional_filled = notional;
        filled_qty = filled;
        levels_consumed = levels;
      } in
      if lit 1 12 <? remaining
      then (if whole then rest else record rest {
        ladder = record l { quantity = l.quantity ⊖ remaining } ∷ rest.ladder;
      })
      else stopped

  -- `mid` less or plus the average price, as the side asks.
  unfoldable pub slippage : Bool → Option F → F → F
  slippage is_sell none avg = nought
  slippage is_sell (some m) avg = if is_sell then m ⊖ avg else avg ⊖ m

  unfoldable pub fill_side :
      OrderBook F → F → Bool → Option F → Option F → OrderBook F × FillResult F
  unfolding walk slippage
  fill_side b quantity is_sell mid half =
      let w = walk quantity nought nought 0 (if is_sell then b.bids else b.asks) in
      let avg_fill_price =
        if lit 1 12 <? w.filled_qty then w.notional_filled ⊘ w.filled_qty else nought in
      (
        if is_sell then record b { bids = w.ladder } else record b { asks = w.ladder },
        record {
          filled_qty = w.filled_qty;
          avg_fill_price = avg_fill_price;
          levels_consumed = w.levels_consumed;
          residual_qty = w.remaining;
          real_spread_cost = unwrap_or half nought ⊗ w.filled_qty;
          slippage_from_mid = slippage is_sell mid avg_fill_price;
        },
      )

  unfoldable pub fill_market_sell : OrderBook F → F → OrderBook F × FillResult F
  unfolding fill_side
  fill_market_sell b quantity = fill_side b quantity true (mid_price b) (half_spread b)

  unfoldable pub fill_market_buy : OrderBook F → F → OrderBook F × FillResult F
  unfolding fill_side
  fill_market_buy b quantity = fill_side b quantity false (mid_price b) (half_spread b)
