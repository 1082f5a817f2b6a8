-- ===== src/Rl/Env/Step/Ledger.antt =====
-- src/bin/rl_env/env/execution.rs: where the inventory goes, and when an episode ends.
use strata_exec.Prelude.{
  ◌≡◌, refl, ap, Bool, true, false, ◌&&◌, ◌||◌, Option, none, some, inl, inr, arith, Bool-cases,
}
use strata_exec.Prelude.Int.{pos_part, neg_part}
use strata_exec.Float.{Float, ◌⊖◌, ◌<?◌, ◌≤?◌, lit, nought}
use strata_exec.Float.Laws.{IsRounding, IsExact}
use strata_exec.Float.Order.{
  ◌≼◌, IsNonneg, nought_parts, lit_nonneg, lt→≺, not_lt→≼, not_le→≺, ≺→lt, fmax-ge_left,
  fmax-ge_right, fmax-le,
}
use strata_exec.Float.Exact.{Balance, add_parts, sub_parts}
use strata_exec.Market.OrderBook.{OrderBook, fill_market_sell}
use strata_exec.Market.OrderBook.Fill.{fill_market_sell-FillSpec}
use strata_exec.Market.Adversarial.{pre_fill}
use strata_exec.Market.Adversarial.Ledger.{sell-conserves}
use strata_exec.Rl.Env.{RlEnv, AdversarialState}
use strata_exec.Rl.Env.Fills.{
  Fill, no_fill, from_result, price_dump, record_fill, settle_forced_liquidation, sell_against,
  sell_from, voluntary_sale,
}
use strata_exec.Rl.Env.Step.{Closing, close_as, close, sliver, counterfactual_sale}

close_test :
    (ended inv_done above more : Bool)
    → (inv_done ≡ false → above ≡ true)
    → (ended && above) ≡ false
    → (inv_done && more) ≡ false
    → (inv_done || ended) ≡ true
    → more ≡ false
close_test ended true above more h a b c = b
close_test false false above more h a b c = ground arith
close_test true false above more h a b c = cc (h refl, a, b)

or_right : (a b : Bool) → b ≡ true → (a || b) ≡ true
or_right true b h = refl
or_right false b h = h

module _ {F : Type 0} ⦃f : Float F⦄ ⦃r : IsRounding F⦄ where
  -- A fill of at most q.
  abbrev IsFill : F → Fill F → Type 0
  IsFill q fill = IsNonneg fill.qty × (fill.qty ≼ q)

  no_fill-IsFill : (q mid : F) → IsNonneg q → IsFill q (no_fill mid)
  no_fill-IsFill q mid h = (omega (arith, nought_parts r), omega (arith, nought_parts r))

  spent : (a : F) → r.val a ≡ r.val (lit 0 0) → a ≼ lit 1 12
  spent a e = omega (arith, nought_parts r, lit_nonneg r 1 12, ap pos_part e, ap neg_part e)

  module _ (x : IsExact F r) where
    sale-IsFill :
        (book : OrderBook F) (q mid : F)
        → IsNonneg q
        → IsFill q (from_result (fill_market_sell book q).1 mid)
    unfolding from_result
    sale-IsFill book q mid h =
        let out = (fill_market_sell book q).1 in
        elim (Bool-cases (lit 1 12 <? out.filled_qty)) [
          | inr e ↦ rw e (no_fill-IsFill q mid h)
          | inl e ↦ rw e (
            omega (arith, lt→≺ {F = F} (lit 1 12) out.filled_qty e, lit_nonneg r 1 12),
            omega (
              arith,
              sell-conserves x book q,
              (fill_market_sell-FillSpec book q h).2.residual_nonneg,
            ),
          )
        ]

    against-IsFill :
        {G : Type 0} (e : RlEnv F G) (book : OrderBook F) (adv : Option (AdversarialState F))
        (q mid : F)
        → IsNonneg q
        → IsFill q (sell_against e book adv q mid).1
    unfolding sell_against
    against-IsFill e book none q mid h = sale-IsFill book q mid h
    against-IsFill e book (some adv) q mid h =
        sale-IsFill (pre_fill adv.front_runner book q).0 q mid h

    from-IsFill :
        {G : Type 0} (e : RlEnv F G) (book : Option (OrderBook F)) (q mid : F)
        → IsNonneg q
        → IsFill q (sell_from e book q mid).1
    unfolding sell_from
    from-IsFill e none q mid h = no_fill-IsFill q mid h
    from-IsFill e (some book) q mid h = against-IsFill e book e.adversarial q mid h

    pub voluntary_sale-IsFill :
        {G : Type 0} (e : RlEnv F G) (q mid : F) → IsNonneg q → IsFill q (voluntary_sale e q mid).1
    unfolding voluntary_sale
    voluntary_sale-IsFill e q mid h = elim (Bool-cases (lit 1 9 <? q)) [
      | inl k ↦ rw k (from-IsFill e e.current_book q mid h)
      | inr k ↦ rw k (no_fill-IsFill q mid h)
    ]

    pub counterfactual_sale-IsFill :
        (book : OrderBook F) (q mid : F) → IsNonneg q → IsFill q (counterfactual_sale book q mid).1
    unfolding counterfactual_sale
    counterfactual_sale-IsFill book q mid h = elim (Bool-cases (lit 1 9 <? q)) [
      | inl k ↦ rw k (sale-IsFill book q mid h)
      | inr k ↦ rw k (no_fill-IsFill q mid h)
    ]

    -- The inventory before and after.
    pub record Conserves {G : Type 0} (before after : RlEnv F G) : Type 0 where
      pub cfg : after.cfg ≡ before.cfg
      pub ledger :
          Balance
            (r.val after.total_filled)
            (r.val after.remaining)
            (r.val before.total_filled)
            (r.val before.remaining)
      pub left_nonneg : IsNonneg after.remaining

    pub record_fill-Conserves :
        {G : Type 0} (e : RlEnv F G) (fill : Fill F)
        → IsFill e.remaining fill
        → Conserves e (record_fill e fill)
    unfolding record_fill
    record_fill-Conserves e fill h =
        let left = e.remaining ⊖ fill.qty in
        let parts = sub_parts x e.remaining fill.qty in
        record {
          cfg = refl;
          ledger = omega (
            arith,
            h,
            parts,
            add_parts x e.total_filled fill.qty,
            fmax-ge_left left nought,
            fmax-le left nought left (omega arith) (omega (arith, h, parts, nought_parts r)),
          );
          left_nonneg = omega (arith, nought_parts r, fmax-ge_right left nought);
        }

    price_dump-qty :
        (book : Option (OrderBook F)) (q mid spread : F) → (price_dump book q mid spread).1.qty ≡ q
    unfolding price_dump
    price_dump-qty none q mid spread = refl
    price_dump-qty (some book) q mid spread = refl

    -- What the end of a step does, where it is done once `ended` holds.
    pub record Closes {G : Type 0} (ended : Bool) (e : RlEnv F G) (c : Closing F G) : Type 0 where
      pub conserves : Conserves e c.env
      pub step : c.env.step_idx ≡ e.step_idx
      pub sold : c.done ≡ true → c.env.remaining ≼ lit 1 12
      pub stops : ended ≡ true → c.done ≡ true

    abbrev Settles : {G : Type 0} → RlEnv F G → RlEnv F G → Type 0
    Settles e e' =
        Conserves e e' × (e'.step_idx ≡ e.step_idx) × (r.val e'.remaining ≡ r.val (lit 0 0))

    settled-Settles :
        {G : Type 0} (e : RlEnv F G) (book : Option (OrderBook F)) (mid reference : F)
        → let dumped = price_dump book e.remaining mid e.spread_ref in
          Settles e (settle_forced_liquidation e dumped.1 mid reference).0
    unfolding settle_forced_liquidation
    settled-Settles e book mid reference =
        let qty = (price_dump book e.remaining mid e.spread_ref).1.qty in
        let same = price_dump-qty book e.remaining mid e.spread_ref in
        let conserved : Conserves e
            (settle_forced_liquidation e (price_dump book e.remaining mid e.spread_ref).1 mid
              reference).0 =
          record {
            cfg = refl;
            ledger = omega (
              arith,
              nought_parts r,
              add_parts x e.total_filled qty,
              ap (λ q. pos_part (r.val q)) same,
              ap (λ q. neg_part (r.val q)) same,
            );
            left_nonneg = omega (arith, nought_parts r);
          } in
        (conserved, refl, refl)

    close_as-Closes :
        {G : Type 0} (ended forced dust done : Bool) (e : RlEnv F G) (book : Option (OrderBook F))
        (mid reference : F)
        → IsNonneg e.remaining
        → (forced ≡ false → dust ≡ false → done ≡ true → e.remaining ≼ lit 1 12)
        → (ended ≡ true → done ≡ true)
        → Closes ended e (close_as forced dust done e book mid reference)
    unfolding close_as
    close_as-Closes ended true dust done e book mid reference n small stops =
        let s = settled-Settles e book mid reference in
        record { conserves = s.0; step = s.1; sold = λ _. spent _ s.2; stops = λ _. refl }
    close_as-Closes ended false true done e book mid reference n small stops =
        let s = settled-Settles e book mid reference in
        record { conserves = s.0; step = s.1; sold = λ _. spent _ s.2; stops = stops }
    close_as-Closes ended false false done e book mid reference n small stops = record {
      conserves = record { cfg = refl; ledger = omega arith; left_nonneg = n };
      step = refl;
      sold = small refl refl;
      stops = stops;
    }

    pub close-Closes :
        {G : Type 0} (ended : Bool) (e : RlEnv F G) (book : Option (OrderBook F))
        (mid reference : F)
        → IsNonneg e.remaining
        → Closes ended e (close ended e book mid reference)
    unfolding close
    close-Closes ended e book mid reference n =
        let inv_done = e.remaining ≤? sliver e in
        let above = sliver e <? e.remaining in
        let more = lit 1 12 <? e.remaining in
        close_as-Closes ended (ended && above) (inv_done && more) (inv_done || ended) e book mid
          reference n
          (λ a b c. not_lt→≼ (lit 1 12) e.remaining (
            close_test ended inv_done above more
              (λ i. ≺→lt (sliver e) e.remaining (not_le→≺ e.remaining (sliver e) i)) a b c))
          (or_right inv_done ended)
