-- ===== src/Rl/Env/Fills.antt =====
-- src/bin/rl_env/env/execution.rs: a voluntary sale, and the dump of what is left at the end.
use strata_exec.Prelude.{◌||◌, Option, none, some, List, [], ◌∷◌, length, ltb, if◌then◌else◌}
use strata_exec.Float.{Float, ◌⊕◌, ◌⊖◌, ◌⊗◌, ◌⊘◌, ◌<?◌, ◌≤?◌, lit, nought, one, fmax}
use strata_exec.Market.OrderBook.{
  PriceLevel, OrderBook, FillResult, fill_market_sell, total_bid_depth,
}
use strata_exec.Market.Adversarial.{pre_fill, post_fill, recover_step, update_volume}
use strata_exec.Rl.Env.{AdversarialState, RlEnv}

pub record Fill (F : Type 0) : Type 0 where
  pub qty : F
  pub price : F
  pub slippage : F

pub record ForcedLiquidation (F : Type 0) : Type 0 where
  pub qty : F
  pub filled_qty : F
  pub residual_qty : F
  pub filled_notional : F
  pub punitive_notional : F

pub record BookContinuation (F : Type 0) : Type 0 where
  pub last_price : F
  pub density : F

-- `levels.last()`, of a list with a first element.
abbrev pub last_level : {F : Type 0} → PriceLevel F → List (PriceLevel F) → PriceLevel F
last_level l [] = l
last_level l (m ∷ ls) = last_level m ls

module _ {F : Type 0} ⦃f : Float F⦄ where
  abbrev pub no_fill : F → Fill F
  no_fill book_mid = record { qty = nought; price = book_mid; slippage = nought }

  unfoldable pub from_result : FillResult F → F → Fill F
  from_result fr book_mid =
      if lit 1 12 <? fr.filled_qty
      then (record {
        qty = fr.filled_qty;
        price = fr.avg_fill_price;
        slippage = fr.avg_fill_price ⊖ book_mid;
      })
      else no_fill book_mid

  unfoldable pub continuation_of_levels : List (PriceLevel F) → F → Option (BookContinuation F)
  continuation_of_levels [] depth = none
  continuation_of_levels (l ∷ ls) depth =
      let last = last_level l ls in
      let reach = l.price ⊖ last.price in
      if ltb (length (l ∷ ls)) 2 || reach ≤? lit 1 12 || depth ≤? lit 1 12
      then none
      else some (record { last_price = last.price; density = depth ⊘ reach })

  unfoldable pub continuation_of : OrderBook F → Option (BookContinuation F)
  unfolding continuation_of_levels total_bid_depth
  continuation_of book = continuation_of_levels book.bids (total_bid_depth book)

  unfoldable pub average_price_for : BookContinuation F → F → F
  average_price_for c qty = c.last_price ⊖ lit 5 1 ⊗ qty ⊘ c.density

  -- The price of the quantity that the book does not absorb.
  unfoldable pub residual_price : Option (BookContinuation F) → FillResult F → F → F → F
  unfolding average_price_for fmax
  residual_price (some c) fr mid spread_ref = average_price_for c fr.residual_qty
  residual_price none fr mid spread_ref =
      (if lit 1 12 <? fr.filled_qty then fr.avg_fill_price else mid)
      ⊖ fmax spread_ref (lit 1 6) ⊗ lit 5 0

  -- `ForcedLiquidation::price`, with the book after it.
  unfoldable pub price_dump :
      Option (OrderBook F) → F → F → F → Option (OrderBook F) × ForcedLiquidation F
  unfolding continuation_of fill_market_sell residual_price fmax
  price_dump none qty mid spread_ref = (
    none,
    record {
      qty = qty;
      filled_qty = qty;
      residual_qty = nought;
      filled_notional = qty ⊗ mid;
      punitive_notional = nought;
    },
  )
  price_dump (some book) qty mid spread_ref =
      let out = fill_market_sell book qty in
      let price = residual_price (continuation_of book) out.1 mid spread_ref in
      (
        some out.0,
        record {
          qty = qty;
          filled_qty = out.1.filled_qty;
          residual_qty = out.1.residual_qty;
          filled_notional = out.1.filled_qty ⊗ out.1.avg_fill_price;
          punitive_notional =
              if lit 1 9 <? out.1.residual_qty
              then out.1.residual_qty ⊗ fmax price (lit 1 6)
              else nought;
        },
      )

  abbrev pub notional : ForcedLiquidation F → F
  notional liq = liq.filled_notional ⊕ liq.punitive_notional

module _ {F G : Type 0} ⦃f : Float F⦄ where
  unfoldable pub record_fill : RlEnv F G → Fill F → RlEnv F G
  unfolding fmax
  record_fill e fill = record e {
    remaining = fmax (e.remaining ⊖ fill.qty) nought;
    total_filled = e.total_filled ⊕ fill.qty;
    total_notional_received = e.total_notional_received ⊕ fill.qty ⊗ fill.price;
    last_slippage = fill.slippage;
  }

  -- The reward, and the step's contribution to the implementation shortfall.
  unfoldable pub step_reward : RlEnv F G → Fill F → F → F → F × F
  unfolding fmax
  step_reward e fill book_mid reference_mid =
      let total = fmax e.cfg.total_inventory one in
      let q_frac = e.remaining ⊘ total in
      let sigma_ref = fmax e.cfg.sigma_ref (lit 1 9) in
      let ratio = e.current_sigma ⊘ sigma_ref in
      let fill_cost =
        if nought <? fill.qty
        then (if lit 1 12 <? book_mid then (book_mid ⊖ fill.price) ⊘ book_mid else nought)
        else nought in
      let perm_cost = e.cfg.gamma ⊗ (fill.qty ⊘ total) in
      let var_penalty = lit 1 2 ⊗ (ratio ⊗ ratio) ⊗ (q_frac ⊗ q_frac) in
      let inv_pressure = lit 2 4 ⊗ (q_frac ⊗ q_frac) in
      let reward =
        if lit 1 9 <? fill.qty
        then (fill.price ⊖ reference_mid) ⊗ fill.qty ⊘ (fmax e.arrival_price (lit 1 12) ⊗ total)
        else f.neg (var_penalty ⊕ inv_pressure) ⊗ lit 1 4 in
      (reward, f.neg (fill_cost ⊕ perm_cost))

  unfoldable pub settle_forced_liquidation : RlEnv F G → ForcedLiquidation F → F → F → RlEnv F G × F
  unfolding fmax
  settle_forced_liquidation e liq mid reference_mid =
      let total = fmax e.cfg.total_inventory one in
      let liquidated_at = if lit 1 12 <? liq.qty then notional liq ⊘ liq.qty else mid in
      let slippage_cost =
        (reference_mid ⊖ liquidated_at) ⊗ liq.qty ⊘ (fmax e.arrival_price (lit 1 12) ⊗ total) in
      (
        record e {
          total_filled = e.total_filled ⊕ liq.qty;
          total_notional_received = e.total_notional_received ⊕ notional liq;
          remaining = nought;
        },
        slippage_cost ⊕ e.cfg.gamma ⊗ (liq.qty ⊘ total),
      )

  -- The sale of a step from the environment's book, between the two agents if there are any.
  unfoldable pub sell_against :
      RlEnv F G → OrderBook F → Option (AdversarialState F) → F → F → RlEnv F G × Fill F
  unfolding fill_market_sell from_result pre_fill post_fill recover_step update_volume
      total_bid_depth
  sell_against e book none intended book_mid =
      let out = fill_market_sell book intended in
      (record e { current_book = some out.0 }, from_result out.1 book_mid)
  sell_against e book (some adv) intended book_mid =
      let front_run = pre_fill adv.front_runner book intended in
      let out = fill_market_sell front_run.0 intended in
      let reaction =
        post_fill adv.withdrawer out.0 out.1.filled_qty (total_bid_depth front_run.0) in
      let recovered = recover_step reaction.withdrawer reaction.book in
      let after : AdversarialState F = record {
        withdrawer = recovered.0;
        front_runner = update_volume adv.front_runner out.1.filled_qty;
        last_front_runner_qty = front_run.1;
        last_depth_withdrawn = reaction.total_withdrawn;
        last_pre_fill_depth = total_bid_depth book;
      } in
      (
        record e { current_book = some recovered.1; adversarial = some after },
        from_result out.1 book_mid,
      )

  unfoldable pub sell_from : RlEnv F G → Option (OrderBook F) → F → F → RlEnv F G × Fill F
  unfolding sell_against
  sell_from e none intended book_mid = (e, no_fill book_mid)
  sell_from e (some book) intended book_mid = sell_against e book e.adversarial intended book_mid

  unfoldable pub voluntary_sale : RlEnv F G → F → F → RlEnv F G × Fill F
  unfolding sell_from
  voluntary_sale e intended book_mid =
      if lit 1 9 <? intended
      then sell_from e e.current_book intended book_mid
      else (e, no_fill book_mid)
