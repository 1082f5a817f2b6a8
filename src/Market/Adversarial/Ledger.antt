-- ===== src/Market/Adversarial/Ledger.antt =====
-- src/market/adversarial.rs: where the bid depth goes during a fill.
use strata_exec.Prelude.{
  ℕ, zero, suc, ◌-◌, ◌||◌, ◌≡◌, refl, true, List, [], ◌∷◌, ◌++◌, length, ltb, arith, inl, inr,
  Bool-cases,
}
use mathlib.Core.Path.{subst}
use strata_exec.Prelude.Int.{ℤ, pos, ◌+ℤ◌, ◌≤ℤ◌, +ℤ_parts}
use strata_exec.Float.{Float, ◌⊕◌, ◌⊖◌, ◌⊗◌, ◌⊘◌, ◌<?◌, ◌≤?◌, lit, nought, fmax}
use strata_exec.Float.Laws.{IsRounding, IsExact}
use strata_exec.Float.Order.{IsNonneg, nought_parts, fmax-ge_right}
use strata_exec.Float.Exact.{Balance, total, add_parts, sub_parts}
use strata_exec.Market.OrderBook.{
  PriceLevel, OrderBook, total_bid_depth, mid_price, half_spread, fill_market_sell,
}
use strata_exec.Market.OrderBook.Walk.{depth}
use strata_exec.Market.OrderBook.Fill.{fill_side-conserves, fill_market_sell-FillSpec}
use strata_exec.Market.Adversarial.{
  LiquidityWithdrawer, FrontRunner, AdversarialBook, repeat, resize, withdraw, pull_depth,
  post_fill, give_back, restore, recover, recover_step, sell_ahead, is_quiet, pre_fill, fill,
}

module _ {F : Type 0} ⦃f : Float F⦄ ⦃r : IsRounding F⦄ where
  -- The depth of the bids with the deficits that are still to be restored.
  abbrev pub held : List (PriceLevel F) → List F → ℤ
  held ls ds = depth ls +ℤ total ds

  nought_plus : (a : F) (t : ℤ) → r.val a ≡ pos 0 → t ≡ pos 0 → r.val a +ℤ t ≡ pos 0
  nought_plus a t p q = unfold ◌+ℤ◌ in rw (p, q) refl

  total-append_repeat : (ds : List F) (n : ℕ) → total (ds ++ repeat n nought) ≡ total ds
  unfolding total
  total-append_repeat [] zero = refl
  total-append_repeat [] (suc n) =
      nought_plus nought (total (repeat n nought)) (r.zero-val 0) (total-append_repeat [] n)
  total-append_repeat (d ∷ ds) n = rw (total-append_repeat ds n) refl

  total-resize : (ds : List F) (n : ℕ) → total (resize ds n nought) ≡ total ds
  total-resize ds n = elim (Bool-cases (ltb (length ds) n)) [
    | inl e ↦ rw (e, total-append_repeat ds (n - length ds)) refl
    | inr e ↦ rw e refl
  ]

  module _ (x : IsExact F r) where
    withdraw-held :
        (pct acc : F) (ls : List (PriceLevel F)) (ds : List F)
        → let out = withdraw pct acc ls ds in
          Balance (depth out.levels) (total out.deficits) (depth ls) (total ds)
    unfolding withdraw total
    withdraw-held pct acc [] ds = omega arith
    withdraw-held pct acc (l ∷ ls) [] = omega arith
    withdraw-held pct acc (l ∷ ls) (d ∷ ds) =
        let pull = pct ⊗ l.quantity in
        let out = withdraw pct (acc ⊕ pull) ls ds in
        omega (
          arith,
          withdraw-held pct (acc ⊕ pull) ls ds,
          sub_parts x l.quantity pull,
          add_parts x d pull,
          +ℤ_parts (r.val l.quantity) (depth ls),
          +ℤ_parts (r.val (l.quantity ⊖ pull)) (depth out.levels),
          +ℤ_parts (r.val d) (total ds),
          +ℤ_parts (r.val (d ⊕ pull)) (total out.deficits),
        )

    give_back-held :
        (denom : F) (l : PriceLevel F) (d : F)
        → let out = give_back denom l d in
          Balance (r.val out.0.quantity) (r.val out.1) (r.val l.quantity) (r.val d)
    unfolding give_back
    give_back-held denom l d = elim (Bool-cases (nought <? d)) [
      | inl e ↦ rw e (omega (arith, add_parts x l.quantity (d ⊘ denom), sub_parts x d (d ⊘ denom)))
      | inr e ↦ rw e (omega arith)
    ]

    restore-held :
        (denom : F) (ls : List (PriceLevel F)) (ds : List F)
        → let out = restore denom ls ds in Balance (depth out.0) (total out.1) (depth ls) (total ds)
    unfolding restore total
    restore-held denom [] ds = omega arith
    restore-held denom (l ∷ ls) [] = omega arith
    restore-held denom (l ∷ ls) (d ∷ ds) =
        let here = give_back denom l d in
        let rest = restore denom ls ds in
        omega (
          arith,
          restore-held denom ls ds,
          give_back-held denom l d,
          +ℤ_parts (r.val l.quantity) (depth ls),
          +ℤ_parts (r.val here.0.quantity) (depth rest.0),
          +ℤ_parts (r.val d) (total ds),
          +ℤ_parts (r.val here.1) (total rest.1),
        )

    abbrev Keeps :
        LiquidityWithdrawer F → OrderBook F → LiquidityWithdrawer F → OrderBook F → Type 0
    Keeps w book w' book' =
        Balance (depth book'.bids) (total w'.withdrawn_depth_per_level) (depth book.bids)
          (total w.withdrawn_depth_per_level)

    pull_depth-held :
        (w : LiquidityWithdrawer F) (book : OrderBook F)
        → Keeps w book (pull_depth w book).withdrawer (pull_depth w book).book
    unfolding pull_depth
    pull_depth-held w book =
        let ds = w.withdrawn_depth_per_level in
        let resized = resize ds (length book.bids) nought in
        let out = withdraw w.withdrawal_pct nought book.bids resized in
        subst (λ t. Balance (depth out.levels) (total out.deficits) (depth book.bids) t)
          (total-resize ds (length book.bids))
          (withdraw-held w.withdrawal_pct nought book.bids resized)

    post_fill-held :
        (w : LiquidityWithdrawer F) (book : OrderBook F) (q d : F)
        → Keeps w book (post_fill w book q d).withdrawer (post_fill w book q d).book
    unfolding post_fill
    post_fill-held w book q d = elim (Bool-cases (d ≤? nought || q ≤? w.sensitivity ⊗ d)) [
      | inl e ↦ rw e (omega arith)
      | inr e ↦ rw e (pull_depth-held w book)
    ]

    recover-held :
        (w : LiquidityWithdrawer F) (book : OrderBook F) (n : ℕ)
        → Keeps w book (recover w book n).0 (recover w book n).1
    unfolding recover
    recover-held w book zero = omega arith
    recover-held w book (suc n) =
        restore-held (f.of_usize (suc n)) book.bids w.withdrawn_depth_per_level

    pub sell-conserves :
        (book : OrderBook F) (q : F)
        → let out = fill_market_sell book q in
          Balance (r.val out.1.filled_qty) (r.val out.1.residual_qty) (r.val q) (pos 0)
          × Balance (depth out.0.bids) (r.val out.1.filled_qty) (depth book.bids) (pos 0)
    unfolding fill_market_sell
    sell-conserves book q = fill_side-conserves x book q true (mid_price book) (half_spread book)

    sells_at_most :
        (book : OrderBook F) (q : F)
        → IsNonneg q
        → depth book.bids ≤ℤ depth (fill_market_sell book q).0.bids +ℤ r.val q
    sells_at_most book q h =
        let out = fill_market_sell book q in
        omega (
          arith,
          sell-conserves book q,
          (fill_market_sell-FillSpec book q h).2.residual_nonneg,
          +ℤ_parts (depth out.0.bids) (r.val q),
        )

    sell_ahead_at_most :
        (book : OrderBook F) (q : F)
        → IsNonneg q
        → depth book.bids ≤ℤ depth (sell_ahead book q).0.bids +ℤ r.val (sell_ahead book q).1
    unfolding sell_ahead
    sell_ahead_at_most book q h = elim (Bool-cases (lit 1 9 <? q)) [
      | inl e ↦ rw e (sells_at_most book q h)
      | inr e ↦ rw e (omega (arith, +ℤ_parts (depth book.bids) (r.val q)))
    ]

    pre_fill_at_most :
        (a : FrontRunner F) (book : OrderBook F) (q : F)
        → depth book.bids ≤ℤ depth (pre_fill a book q).0.bids +ℤ r.val (pre_fill a book q).1
    unfolding pre_fill
    pre_fill_at_most a book q = elim (Bool-cases (is_quiet a q)) [
      | inl e ↦ rw e (omega (arith, nought_parts r, +ℤ_parts (depth book.bids) (r.val (lit 0 0))))
      | inr e ↦
          let copy = a.aggression ⊗ q in
          rw e (
            sell_ahead_at_most book (fmax copy nought)
              (omega (arith, nought_parts r, fmax-ge_right copy nought)))
    ]

    -- A fill of an adversarial book, sums being exact. The bid depth that the front-runner leaves, with
    -- the deficits from before, is the depth after the fill with the deficits then and the quantity
    -- that the fill reports: a withdrawal and a recovery only move depth between levels and
    -- deficits. The front-runner takes at most the quantity that is recorded of it.
    pub fill-ledger :
        (b : AdversarialBook F) (qty : F)
        → let out = fill b qty in
          let left = (pre_fill b.front_runner b.base_book qty).0 in
          Balance
            (held out.0.base_book.bids out.0.withdrawer.withdrawn_depth_per_level)
            (r.val out.1.filled_qty)
            (depth left.bids)
            (total b.withdrawer.withdrawn_depth_per_level)
          × (depth b.base_book.bids ≤ℤ depth left.bids +ℤ r.val out.0.last_front_runner_qty)
    unfolding fill recover_step
    fill-ledger b qty =
        let left = (pre_fill b.front_runner b.base_book qty).0 in
        let sold = fill_market_sell left qty in
        let reaction = post_fill b.withdrawer sold.0 sold.1.filled_qty (total_bid_depth left) in
        let out = recover_step reaction.withdrawer reaction.book in
        (
          omega (
            arith,
            sell-conserves left qty,
            post_fill-held b.withdrawer sold.0 sold.1.filled_qty (total_bid_depth left),
            recover-held reaction.withdrawer reaction.book reaction.withdrawer.recovery_counter,
            +ℤ_parts (depth out.1.bids) (total out.0.withdrawn_depth_per_level),
          ),
          pre_fill_at_most b.front_runner b.base_book qty,
        )
