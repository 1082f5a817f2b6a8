-- ===== src/Market/OrderBook/Fill.antt =====
-- The fills of src/market/order_book.rs: what they do to the book, and what they report.
use strata_exec.Prelude.{
  ◌≤◌, ◌≡◌, refl, Bool, true, false, Option, List, [], ◌∷◌, All, length, ◌⊎◌, arith, if◌then◌else◌,
}
use strata_exec.Float.{Float, lit, nought}
use strata_exec.Float.Laws.{IsRounding, IsExact}
use strata_exec.Float.Order.{◌≼◌, ◌≺◌, IsNonneg, nought_parts}
use strata_exec.Float.Exact.{Balance}
use strata_exec.Prelude.Int.{pos}
use strata_exec.Market.OrderBook.{
  PriceLevel, OrderBook, FillResult, fill_side, fill_market_sell, fill_market_buy,
}
use strata_exec.Market.OrderBook.Walk.{
  Takes, no_level, no_demand, part, whole, depth, walk-WalkSpec, walk-Conserves,
}

module _ {F : Type 0} where
  -- The ladder that a fill walks, and the other one.
  abbrev pub ladder : Bool → OrderBook F → List (PriceLevel F)
  ladder is_sell b = if is_sell then b.bids else b.asks

module _ {F : Type 0} ⦃f : Float F⦄ ⦃r : IsRounding F⦄ where
  -- Every level of the list is priced at `p` or worse; `better x y` is that x is at least as good.
  abbrev pub Sorted : (F → F → Type 0) → List (PriceLevel F) → Type 0
  Sorted better [] = Unit
  Sorted better (l ∷ ls) = All (λ m. better l.price m.price) ls × Sorted better ls

  All-taken :
      (P : F → Type 0) {q left : F} {before after : List (PriceLevel F)}
      → Takes q left before after
      → All (λ m. P m.price) before
      → All (λ m. P m.price) after
  All-taken P no_level h = h
  All-taken P (no_demand le) h = h
  All-taken P (part lt) h = h
  All-taken P (whole le t) h = All-taken P t h.1

  Sorted-taken :
      (better : F → F → Type 0) {q left : F} {before after : List (PriceLevel F)}
      → Takes q left before after
      → Sorted better before
      → Sorted better after
  Sorted-taken better no_level h = h
  Sorted-taken better (no_demand le) h = h
  Sorted-taken better (part lt) h = h
  Sorted-taken better (whole le t) h = Sorted-taken better t h.1

  -- The invariants that the source's comment on `OrderBook` names: bids descend, asks ascend, and
  -- every bid is below every ask.
  pub record IsBook (b : OrderBook F) : Type 0 where
    pub bids_sorted : Sorted (λ p q. q ≼ p) b.bids
    pub asks_sorted : Sorted (λ p q. p ≼ q) b.asks
    pub uncrossed : All (λ bid. All (λ ask. bid.price ≺ ask.price) b.asks) b.bids

  -- The report of a fill, and the ladder after it, against the ladder before it.
  pub record FillSpec (q : F) (before after : List (PriceLevel F)) (x : FillResult F) : Type 0 where
    pub residual_nonneg : IsNonneg x.residual_qty
    pub exhausted : (after ≡ []) ⊎ (x.residual_qty ≼ lit 1 12)
    pub levels : x.levels_consumed ≤ length before
    pub takes : Takes q x.residual_qty before after

  -- A market sell of a quantity that is not negative leaves the asks and the time stamp alone. The demand
  -- takes bids from the front: a level that fits into what is left of it is removed, and the first that
  -- does not is reduced by what is left; the later levels stay as they are. The reported residue is what
  -- is left of the demand then, is not negative, and is above 1e-12 only when no bid is left; no more
  -- levels are reported than there were.
  pub fill_market_sell-FillSpec :
      (b : OrderBook F) (q : F)
      → IsNonneg q
      → let out = fill_market_sell b q in
        (out.0.asks ≡ b.asks) × (out.0.timestamp ≡ b.timestamp) × FillSpec q b.bids out.0.bids out.1
  unfolding fill_market_sell
  fill_market_sell-FillSpec b q h =
      let w = walk-WalkSpec q nought nought 0 b.bids h in
      (
        refl,
        refl,
        record {
          residual_nonneg = w.remaining_nonneg;
          exhausted = w.exhausted;
          levels = omega (arith, w.levels);
          takes = w.takes;
        },
      )

  -- The same of a market buy, which takes asks.
  fill_market_buy-FillSpec :
      (b : OrderBook F) (q : F)
      → IsNonneg q
      → let out = fill_market_buy b q in
        (out.0.bids ≡ b.bids) × (out.0.timestamp ≡ b.timestamp) × FillSpec q b.asks out.0.asks out.1
  unfolding fill_market_buy
  fill_market_buy-FillSpec b q h =
      let w = walk-WalkSpec q nought nought 0 b.asks h in
      (
        refl,
        refl,
        record {
          residual_nonneg = w.remaining_nonneg;
          exhausted = w.exhausted;
          levels = omega (arith, w.levels);
          takes = w.takes;
        },
      )

  -- A market sell of a quantity that is not negative keeps a book sorted and uncrossed.
  pub fill_market_sell-IsBook :
      (b : OrderBook F) (q : F) → IsNonneg q → IsBook b → IsBook (fill_market_sell b q).0
  fill_market_sell-IsBook b q h v =
      let (asks, _, spec) = fill_market_sell-FillSpec b q h in
      record {
        bids_sorted = Sorted-taken _ spec.takes v.bids_sorted;
        asks_sorted = rw asks v.asks_sorted;
        uncrossed =
            rw asks (All-taken (λ p. All (λ ask. p ≺ ask.price) b.asks) spec.takes v.uncrossed);
      }

  module _ (x : IsExact F r) where
    -- A fill on either side: the filled and the residual quantity make up the quantity asked for, and
    -- the side's depth falls by exactly the filled quantity, sums being exact.
    pub fill_side-conserves :
        (b : OrderBook F) (q : F) (is_sell : Bool) (mid half : Option F)
        → let out = fill_side b q is_sell mid half in
          Balance (r.val out.1.filled_qty) (r.val out.1.residual_qty) (r.val q) (pos 0)
          × Balance
              (depth (ladder is_sell out.0))
              (r.val out.1.filled_qty)
              (depth (ladder is_sell b))
              (pos 0)
    unfolding fill_side
    fill_side-conserves b q true mid half =
        let c = walk-Conserves x q nought nought 0 b.bids in
        (omega (arith, c.0, nought_parts r), omega (arith, c.1, nought_parts r))
    fill_side-conserves b q false mid half =
        let c = walk-Conserves x q nought nought 0 b.asks in
        (omega (arith, c.0, nought_parts r), omega (arith, c.1, nought_parts r))
