-- ===== src/Execution/Engine/Pending.antt =====
-- src/execution/engine.rs: which orders are pending after a pass, and after a cancellation.
use strata_exec.Prelude.{
  sym, ℕ, ◌≡◌, ◌≢◌, refl, Bool, true, false, not, List, [], ◌∷◌, ◌==◌, All, All-retain_test, retain,
  retain_congr, inl, inr, arith, Bool-cases, if◌then◌else◌,
}
use strata_exec.Float.{Float, ◌⊖◌, ◌<?◌, ◌≤?◌, lit, nought, fmin}
use strata_exec.Float.Laws.{IsRounding}
use strata_exec.Float.Order.{le→≼, ≼→not_lt, not_le-eq-lt, nought_parts, lit_nonneg}
use strata_exec.Events.{Order, cancel_order}
use strata_exec.Market.{MarketState}
use strata_exec.Execution.Impact.{SquareRootImpact, TransientImpactTracker}
use strata_exec.Execution.Engine.{
  ExecutionEngine, contains, fill_order, fill_orders, try_fill, react,
}
use strata_exec.Execution.Engine.Fills.{fill_order_skips, fill_order_takes, fill_order-id}

abbrev pub ids : {F : Type 0} → List (Order F) → List ℕ
ids [] = []
ids (o ∷ os) = o.id ∷ ids os

abbrev pub AreDistinct : List ℕ → Type 0
AreDistinct [] = Unit
AreDistinct (i ∷ is) = All (λ j. i ≢ j) is × AreDistinct is

module _ {F : Type 0} ⦃f : Float F⦄ where
  -- A cancellation takes out every order with that id and no other, in order; nothing is filled.
  react-cancel :
      (e : ExecutionEngine F) (now : F) (i : ℕ) (market : MarketState F)
      → let out = react e now (cancel_order i) market in
        All (λ o. o.id ≢ i) out.0.pending_orders
        × (out.0.pending_orders ≡ retain (λ o. not (o.id == i)) e.pending_orders)
        × (out.0.transient_tracker ≡ e.transient_tracker)
        × (out.1 ≡ [])
  unfolding react
  react-cancel e now i market = (others e.pending_orders, refl, refl, refl)
    where
      others : (os : List (Order F)) → All (λ o. o.id ≢ i) (retain (λ o. not (o.id == i)) os)
      others os = All-retain_test (λ o. o.id ≢ i) (λ o. not (o.id == i)) os (each os)
        where
          each : (xs : List (Order F)) → All (λ o. not (o.id == i) ≡ true → o.id ≢ i) xs
          each [] = tt
          each (o ∷ xs) = ((λ h. ground arith), each xs)

module _ {F : Type 0} ⦃f : Float F⦄ ⦃r : IsRounding F⦄ where
  module _ (model : SquareRootImpact F) (cap now : F) (market : MarketState F) where
    -- An order is done exactly when at most 1e-10 of it is left.
    fill_order-done :
        (tr : TransientImpactTracker F) (o : Order F)
        → let a = fill_order model cap now market tr o in
          not a.done ≡ (lit 1 10 <? a.order.quantity)
    fill_order-done tr o = elim (Bool-cases (o.quantity ≤? nought)) [
      | inl e ↦
          let none_left = le→≼ o.quantity nought e in
          rw (fill_order_skips model cap now market tr o e) (
            sym (
              ≼→not_lt (lit 1 10) o.quantity
                (omega (arith, none_left, nought_parts r, lit_nonneg r 1 10))))
      | inr e ↦
          let (left, done) = fill_order_takes model cap now market tr o e in
          rw (left, done) (not_le-eq-lt (o.quantity ⊖ fmin o.quantity cap) (lit 1 10))
    ]

    fill_orders-ids :
        (tr : TransientImpactTracker F) (os : List (Order F))
        → ids (fill_orders model cap now market tr os).orders ≡ ids os
    unfolding fill_orders
    fill_orders-ids tr [] = refl
    fill_orders-ids tr (o ∷ os) =
        rw
          (
            fill_order-id model cap now market tr o,
            fill_orders-ids (fill_order model cap now market tr o).tracker os,
          )
          refl

    contains-fresh :
        (i : ℕ) (tr : TransientImpactTracker F) (os : List (Order F))
        → All (λ j. i ≢ j) (ids os)
        → contains (fill_orders model cap now market tr os).filled_ids i ≡ false
    unfolding fill_orders contains
    contains-fresh i tr [] h = refl
    contains-fresh i tr (o ∷ os) (h, hs) =
        let a = fill_order model cap now market tr o in
        let ih = contains-fresh i a.tracker os hs in
        elim (Bool-cases a.done) [ inl e ↦ rw (e, ih) (ground arith) | inr e ↦ rw e ih ]

    -- Whether the pass drops an order: its id is listed exactly when at most 1e-10 of it is left.
    abbrev IsListed : List ℕ → Order F → Type 0
    IsListed filled o = not (contains filled o.id) ≡ (lit 1 10 <? o.quantity)

    IsListed-more :
        (i : ℕ) (done : Bool) (filled : List ℕ) (os : List (Order F))
        → All (λ j. i ≢ j) (ids os)
        → All (IsListed filled) os
        → All (IsListed (if done then i ∷ filled else filled)) os
    unfolding contains
    IsListed-more i done filled [] h l = tt
    IsListed-more i true filled (o ∷ os) (h, hs) (l, ls) =
        (ground arith, IsListed-more i true filled os hs ls)
    IsListed-more i false filled (o ∷ os) (h, hs) (l, ls) = (l, ls)

    head-IsListed :
        (done : Bool) (i : ℕ) (o : Order F) (filled : List ℕ)
        → o.id ≡ i
        → not done ≡ (lit 1 10 <? o.quantity)
        → contains filled i ≡ false
        → IsListed (if done then i ∷ filled else filled) o
    unfolding contains
    head-IsListed true i o filled e d c = ground arith
    head-IsListed false i o filled e d c = rw (e, c) d

    fill_orders-IsListed :
        (tr : TransientImpactTracker F) (os : List (Order F))
        → AreDistinct (ids os)
        → let round = fill_orders model cap now market tr os in
          All (IsListed round.filled_ids) round.orders
    unfolding fill_orders contains
    fill_orders-IsListed tr [] d = tt
    fill_orders-IsListed tr (o ∷ os) (fresh, d) =
        let a = fill_order model cap now market tr o in
        let rest = fill_orders model cap now market a.tracker os in
        (
          head-IsListed a.done o.id a.order rest.filled_ids
              (fill_order-id model cap now market tr o) (fill_order-done tr o)
              (contains-fresh o.id a.tracker os fresh),
          IsListed-more o.id a.done rest.filled_ids rest.orders
              (rw (fill_orders-ids a.tracker os) fresh) (fill_orders-IsListed a.tracker os d),
        )

  -- After a pass over pending orders with distinct ids, exactly the orders of which more than 1e-10
  -- is left are pending, in the order in which they were submitted.
  pub try_fill-pending :
      (e : ExecutionEngine F) (now : F) (market : MarketState F)
      → AreDistinct (ids e.pending_orders)
      → let round =
          fill_orders e.impact_model e.max_fill_qty now market e.transient_tracker
            e.pending_orders in
        (try_fill e now market).0.pending_orders ≡ retain (λ o. lit 1 10 <? o.quantity) round.orders
  unfolding try_fill
  try_fill-pending e now market d = retain_congr _ _ _ (
      fill_orders-IsListed e.impact_model e.max_fill_qty now market e.transient_tracker
        e.pending_orders d)
