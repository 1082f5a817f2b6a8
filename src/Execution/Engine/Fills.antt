-- ===== src/Execution/Engine/Fills.antt =====
-- src/execution/engine.rs: how much `try_fill` fills.
use strata_exec.Prelude.{
  ◌≡◌, refl, Bool, true, false, List, [], ◌∷◌, ◌++◌, inl, inr, arith, Bool-cases, if◌then◌else◌, ℕ,
}
use strata_exec.Prelude.Int.{ℤ, pos, ◌+ℤ◌, +ℤ_parts}
use strata_exec.Float.{Float, ◌⊖◌, ◌≤?◌, lit, nought, fmin}
use strata_exec.Float.Laws.{IsRounding, IsExact}
use strata_exec.Float.Order.{
  ◌≼◌, ◌≺◌, IsNonneg, nought_parts, fmin-le_left, fmin-le_right, le-fmin, sub-IsNonneg, ≺→not_le,
}
use strata_exec.Float.Exact.{Balance, sub_parts}
use strata_exec.Events.{Order, SimEvent, order_filled, partial_fill}
use strata_exec.Market.{MarketState}
use strata_exec.Execution.Impact.{SquareRootImpact, TransientImpactTracker}
use strata_exec.Execution.Engine.{fill_order, fill_orders}

module _ {F : Type 0} ⦃f : Float F⦄ where
  module _ (model : SquareRootImpact F) (cap now : F) (market : MarketState F) where
    -- An order with nothing left is skipped, and goes to `filled_ids`.
    pub fill_order_skips :
        (tr : TransientImpactTracker F) (o : Order F)
        → o.quantity ≤? nought ≡ true
        → fill_order model cap now market tr o
          ≡ record { tracker = tr; order = o; done = true; events = [] }
    unfolding fill_order
    fill_order_skips tr o e = rw e refl

    pub fill_order_takes :
        (tr : TransientImpactTracker F) (o : Order F)
        → o.quantity ≤? nought ≡ false
        → let a = fill_order model cap now market tr o in
          let left = o.quantity ⊖ fmin o.quantity cap in
          (a.order ≡ record o { quantity = left }) × (a.done ≡ (left ≤? lit 1 10))
    unfolding fill_order
    fill_order_takes tr o e = rw e (refl, refl)

    pub fill_order-id :
        (tr : TransientImpactTracker F) (o : Order F)
        → (fill_order model cap now market tr o).order.id ≡ o.id
    unfolding fill_order
    fill_order-id tr o = elim (Bool-cases (o.quantity ≤? nought)) [
      | inl e ↦ rw e refl
      | inr e ↦ rw e refl
    ]

module _ {F : Type 0} ⦃f : Float F⦄ ⦃r : IsRounding F⦄ where
  -- The quantity that an event reports as filled, and the sum over a list of follow-on events.
  unfoldable pub amount : SimEvent F → ℤ
  amount (order_filled _ qty _ _) = r.val qty
  amount (partial_fill _ filled _ _) = r.val filled
  amount _ = pos 0

  unfoldable pub amounts : List (F × SimEvent F) → ℤ
  unfolding amount
  amounts [] = pos 0
  amounts ((t, e) ∷ rest) = amount e +ℤ amounts rest

  -- The sum of the quantities of the orders.
  unfoldable pub outstanding : List (Order F) → ℤ
  outstanding [] = pos 0
  outstanding (o ∷ os) = r.val o.quantity +ℤ outstanding os

  pub amounts-append :
      (xs ys : List (F × SimEvent F))
      → Balance (amounts xs) (amounts ys) (amounts (xs ++ ys)) (pos 0)
  unfolding amounts
  amounts-append [] ys = omega arith
  amounts-append ((t, e) ∷ xs) ys = omega (
    arith,
    amounts-append xs ys,
    +ℤ_parts (amount e) (amounts xs),
    +ℤ_parts (amount e) (amounts (xs ++ ys)),
  )

  module _ (model : SquareRootImpact F) (cap now : F) (market : MarketState F) where
    -- An attempt at an order with something left, under a cap that is not negative, fills a quantity within the order's and within the
    -- cap, leaves the order with a quantity that is not negative, and reports what it filled.
    pub fill_order_bounds :
        (tr : TransientImpactTracker F) (o : Order F)
        → nought ≺ o.quantity
        → IsNonneg cap
        → let a = fill_order model cap now market tr o in
          let fill_qty = fmin o.quantity cap in
          (amounts a.events ≡ r.val fill_qty +ℤ pos 0)
          × IsNonneg fill_qty
          × (fill_qty ≼ o.quantity)
          × (fill_qty ≼ cap)
          × IsNonneg a.order.quantity
          × (a.order.quantity ≡ o.quantity ⊖ fill_qty)
    unfolding fill_order amounts
    fill_order_bounds tr o h hc =
        let fill_qty = fmin o.quantity cap in
        let low = le-fmin o.quantity cap nought (omega arith) (omega (arith, nought_parts r)) in
        rw (≺→not_le o.quantity nought h) (
          reports (o.quantity ⊖ fill_qty ≤? lit 1 10) o.id fill_qty _ _ _,
          omega (arith, nought_parts r, low),
          fmin-le_left o.quantity cap,
          fmin-le_right o.quantity cap,
          sub-IsNonneg o.quantity fill_qty (fmin-le_left o.quantity cap),
          refl,
        )
      where
        reports :
            (done : Bool) (i : ℕ) (q p t m : F)
            → amount (if done then order_filled i q p t else partial_fill i q m p) +ℤ pos 0
              ≡ r.val q +ℤ pos 0
        reports true i q p t m = refl
        reports false i q p t m = refl

    module _ (x : IsExact F r) where
      fill_order-conserves :
          (tr : TransientImpactTracker F) (o : Order F)
          → let a = fill_order model cap now market tr o in
            Balance (amounts a.events) (r.val a.order.quantity) (r.val o.quantity) (pos 0)
      unfolding fill_order amounts amount
      fill_order-conserves tr o = elim (Bool-cases (o.quantity ≤? nought)) [
        | inl e ↦ rw e (omega arith)
        | inr e ↦ elim (Bool-cases (o.quantity ⊖ fmin o.quantity cap ≤? lit 1 10)) [
          | inl d ↦
              rw (e, d)
                (omega (
                  arith,
                  sub_parts x o.quantity (fmin o.quantity cap),
                  +ℤ_parts (r.val (fmin o.quantity cap)) (pos 0),
                ))
          | inr d ↦
              rw (e, d)
                (omega (
                  arith,
                  sub_parts x o.quantity (fmin o.quantity cap),
                  +ℤ_parts (r.val (fmin o.quantity cap)) (pos 0),
                ))
        ]
      ]

      -- A pass over the pending orders: what the events report as filled and what the orders still
      -- ask for make up what they asked for before, sums being exact.
      pub fill_orders-conserves :
          (tr : TransientImpactTracker F) (os : List (Order F))
          → let round = fill_orders model cap now market tr os in
            Balance (amounts round.events) (outstanding round.orders) (outstanding os) (pos 0)
      unfolding fill_orders outstanding
      fill_orders-conserves tr [] = unfold amounts in omega arith
      fill_orders-conserves tr (o ∷ os) =
          let a = fill_order model cap now market tr o in
          let rest = fill_orders model cap now market a.tracker os in
          omega (
            arith,
            fill_order-conserves tr o,
            fill_orders-conserves a.tracker os,
            amounts-append a.events rest.events,
            +ℤ_parts (r.val a.order.quantity) (outstanding rest.orders),
            +ℤ_parts (r.val o.quantity) (outstanding os),
          )
