-- ===== src/Rl/Env/Step.antt =====
-- src/bin/rl_env/env/execution.rs: one step of the environment, in each mode. Of the report, the
-- fields of the episode's summary are modelled; the diagnostics of single steps are not.
pub mod Fractions
pub mod Ledger
mod Keeps
pub mod Episode
use strata_exec.Prelude.{
  ℕ, zero, suc, ◌-◌, Bool, true, false, ◌&&◌, ◌||◌, not, Option, none, some, List, [], ◌∷◌, length,
  get_elem?, leb, if◌then◌else◌,
}
use strata_exec.Float.{Float, ◌⊕◌, ◌⊖◌, ◌⊗◌, ◌⊘◌, ◌<?◌, ◌≤?◌, lit, nought, fmax, fabs}
use strata_exec.Market.OrderBook.{
  OrderBook, new_book, mid_price, fill_market_sell, total_bid_depth, unwrap_or,
}
use strata_exec.Market.Simulators.{Rng}
use strata_exec.Market.CounterfactualLob.{
  CounterfactualLob, current_adjusted_book, current_undisturbed_mid, record_trade_and_advance,
  is_exhausted,
}
use strata_exec.Market.LobReplay.{min}
use strata_exec.Rl.Config.{
  RlMode, synthetic, historical, counterfactual, EnvConfig, action_fractions, is_twap,
}
use strata_exec.Rl.Env.{RlEnv}
use strata_exec.Rl.Env.Observe.{
  mid_or, push_return, realised_vol, push_price, trim_history, log_return, advance_market,
  build_state,
}
use strata_exec.Rl.Env.Fills.{
  Fill, ForcedLiquidation, no_fill, from_result, price_dump, record_fill, step_reward,
  settle_forced_liquidation, voluntary_sale,
}

-- The fields that the end of an episode adds to the report.
pub record Summary (F : Type 0) : Type 0 where
  pub total_is_pct : F
  pub total_is_dollar : F
  pub forced : Option (ForcedLiquidation F)
  pub dust_liquidated_qty : Option F

pub record StepResult (F : Type 0) : Type 0 where
  pub state : List F
  pub reward : F
  pub done : Bool
  pub summary : Option (Summary F)

-- The variables of the last part of a step.
pub record Closing (F G : Type 0) : Type 0 where
  pub env : RlEnv F G
  pub book : Option (OrderBook F)
  pub total_reward_adj : F
  pub done : Bool
  pub forced : Option (ForcedLiquidation F)
  pub dust : Option F

module _ {F : Type 0} ⦃f : Float F⦄ where
  unfoldable pub fraction_of : ℕ → F
  unfolding action_fractions
  fraction_of action =
      unwrap_or (get_elem? action_fractions (min action (length (action_fractions {F = F}) - 1)))
        nought

  abbrev pub undisturbed_or : Option (CounterfactualLob F) → F → F
  undisturbed_or none d = d
  undisturbed_or (some cf) d = unwrap_or (current_undisturbed_mid cf) d

  unfoldable pub counterfactual_sale : OrderBook F → F → F → OrderBook F × Fill F
  unfolding fill_market_sell from_result
  counterfactual_sale book intended book_mid =
      let out = fill_market_sell book intended in
      if lit 1 9 <? intended then (out.0, from_result out.1 book_mid) else (book, no_fill book_mid)

  abbrev pub advance_lob : Option (CounterfactualLob F) → F → Option (CounterfactualLob F)
  advance_lob none qty = none
  advance_lob (some cf) qty = some (record_trade_and_advance cf qty)

  abbrev pub exhausted : Option (CounterfactualLob F) → Bool
  exhausted none = false
  exhausted (some cf) = is_exhausted cf

  abbrev pub adjusted : Option (CounterfactualLob F) → Option (OrderBook F)
  adjusted none = none
  adjusted (some cf) = some (current_adjusted_book cf)

module _ {F G : Type 0} ⦃f : Float F⦄ where
  -- The end of a step: what is left is dumped into `book` where `forced`, and its last sliver
  -- where `dust`.
  unfoldable pub close_as :
      Bool → Bool → Bool → RlEnv F G → Option (OrderBook F) → F → F → Closing F G
  unfolding price_dump settle_forced_liquidation
  close_as true dust done e book mid reference =
      let dumped = price_dump book e.remaining mid e.spread_ref in
      let settled = settle_forced_liquidation e dumped.1 mid reference in
      record {
        env = settled.0;
        book = dumped.0;
        total_reward_adj = nought ⊖ settled.1;
        done = true;
        forced = some dumped.1;
        dust = none;
      }
  close_as false true done e book mid reference =
      let dumped = price_dump book e.remaining mid e.spread_ref in
      let settled = settle_forced_liquidation e dumped.1 mid reference in
      record {
        env = settled.0;
        book = dumped.0;
        total_reward_adj = nought ⊖ settled.1;
        done = done;
        forced = none;
        dust = some dumped.1.qty;
      }
  close_as false false done e book mid reference = record {
    env = e;
    book = book;
    total_reward_adj = nought;
    done = done;
    forced = none;
    dust = none;
  }

  abbrev pub sliver : RlEnv F G → F
  sliver e = lit 1 3 ⊗ e.cfg.total_inventory

  -- `ended` is that the time or the recorded data is used up.
  unfoldable pub close : Bool → RlEnv F G → Option (OrderBook F) → F → F → Closing F G
  unfolding close_as
  close ended e book mid reference =
      let inv_done = e.remaining ≤? sliver e in
      close_as (ended && sliver e <? e.remaining) (inv_done && lit 1 12 <? e.remaining)
        (inv_done || ended) e book mid reference

  unfoldable pub summarise : RlEnv F G → Option (ForcedLiquidation F) → Option F → Summary F
  unfolding fabs
  summarise e forced dust =
      let ideal = e.arrival_price ⊗ e.cfg.total_inventory in
      let is_dollar = ideal ⊖ e.total_notional_received in
      record {
        total_is_pct = if lit 1 12 <? fabs ideal then is_dollar ⊘ ideal ⊗ lit 100 0 else nought;
        total_is_dollar = is_dollar;
        forced = forced;
        dust_liquidated_qty = dust;
      }

  unfoldable pub result_of : Closing F G → F → StepResult F
  unfolding build_state summarise
  result_of c reward = record {
    state = build_state c.env;
    reward = reward ⊕ c.total_reward_adj;
    done = c.done;
    summary = if c.done then some (summarise c.env c.forced c.dust) else none;
  }

  abbrev pub tick : RlEnv F G → RlEnv F G
  tick e = record e { step_idx = suc e.step_idx }

  abbrev pub time_done : RlEnv F G → Bool
  time_done e = leb e.cfg.total_steps e.step_idx

  module _ (draws : Rng F G) where
    -- The environment before the end of a step against the historical or the synthetic book.
    unfoldable pub trade_market : RlEnv F G → ℕ → RlEnv F G × F
    unfolding fraction_of voluntary_sale record_fill step_reward advance_market
    trade_market e action =
        let book_mid = mid_or e.current_book e.current_mid in
        let sale = voluntary_sale e (fraction_of action ⊗ e.remaining) book_mid in
        let recorded = record_fill sale.0 sale.1 in
        let reward = (step_reward recorded sale.1 book_mid book_mid).0 in
        (advance_market draws (tick recorded), reward)

    unfoldable pub close_market : RlEnv F G → Closing F G
    unfolding close mid_price
    close_market e =
        let mid = mid_or e.current_book e.arrival_price in
        let c = close (time_done e) e e.current_book mid mid in
        record c { env = record c.env { current_book = c.book } }

    unfoldable pub step_market : RlEnv F G → ℕ → RlEnv F G × StepResult F
    unfolding trade_market close_market result_of
    step_market e action =
        let traded = trade_market e action in
        let c = close_market traded.0 in (c.env, result_of c traded.1)

  -- Counterfactual mode: the book that the step's sale is filled against.
  unfoldable pub adjusted_book : RlEnv F G → OrderBook F
  unfolding current_adjusted_book
  adjusted_book e = elim e.cf_lob [
    | some cf ↦ current_adjusted_book cf
    | none ↦ unwrap_or e.current_book (new_book [] [])
  ]

  unfoldable pub reference_mid : RlEnv F G → F → F
  unfolding current_undisturbed_mid
  reference_mid e book_mid =
      if is_twap e.cfg.reward_baseline then e.arrival_price else undisturbed_or e.cf_lob book_mid

  -- The environment with the book of the advanced replay.
  unfoldable pub sync_book : RlEnv F G → Option (CounterfactualLob F) → RlEnv F G
  unfolding current_adjusted_book mid_price fmax push_return realised_vol trim_history
  sync_book e none = e
  sync_book e (some cf) =
      let new_book = current_adjusted_book cf in
      let new_mid = unwrap_or (mid_price new_book) e.current_mid in
      let returned = push_return e (log_return e new_mid) in
      let moved : RlEnv F G = record returned {
        current_mid = new_mid;
        current_sigma = realised_vol returned;
        current_book = some new_book;
      } in
      trim_history (push_price moved new_mid)

  -- The environment before the end of the step, its reward, and the book after the sale.
  unfoldable pub trade_counterfactual : RlEnv F G → ℕ → RlEnv F G × F × OrderBook F
  unfolding fraction_of adjusted_book mid_price reference_mid counterfactual_sale
      record_trade_and_advance fmax record_fill sync_book step_reward
  trade_counterfactual e action =
      let intended = fraction_of action ⊗ e.remaining in
      let book = adjusted_book e in
      let book_mid = unwrap_or (mid_price book) e.current_mid in
      let sale = counterfactual_sale book intended book_mid in
      let lob = advance_lob e.cf_lob (fmax intended nought) in
      let recorded = record_fill (record e { cf_lob = lob }) sale.1 in
      let stepped = tick (sync_book recorded lob) in
      let reward = (step_reward stepped sale.1 book_mid (reference_mid e book_mid)).0 in
      (record stepped { pending_baseline = nought }, reward ⊖ stepped.pending_baseline, sale.0)

  unfoldable pub dump_reference_mid : RlEnv F G → Bool → F → F
  unfolding current_undisturbed_mid
  dump_reference_mid e cf_exhausted this_step =
      if cf_exhausted || is_twap e.cfg.reward_baseline
      then this_step
      else undisturbed_or e.cf_lob this_step

  unfoldable pub close_counterfactual : RlEnv F G → OrderBook F → F → Closing F G
  unfolding is_exhausted close current_adjusted_book dump_reference_mid fmax
  close_counterfactual e sold_book undisturbed_mid =
      let cf_exhausted = exhausted e.cf_lob in
      close (time_done e || cf_exhausted) e
        (if cf_exhausted then some sold_book else adjusted e.cf_lob) (fmax e.current_mid (lit 1 12))
        (dump_reference_mid e cf_exhausted undisturbed_mid)

  unfoldable pub step_counterfactual : RlEnv F G → ℕ → RlEnv F G × StepResult F
  unfolding trade_counterfactual close_counterfactual result_of adjusted_book mid_price
      reference_mid
  step_counterfactual e action =
      let traded = trade_counterfactual e action in
      let book_mid = unwrap_or (mid_price (adjusted_book e)) e.current_mid in
      let c = close_counterfactual traded.0 traded.2 (reference_mid e book_mid) in
      (c.env, result_of c traded.1)

  unfoldable pub step_in : Rng F G → RlMode → RlEnv F G → ℕ → RlEnv F G × StepResult F
  unfolding step_market step_counterfactual
  step_in draws counterfactual e action = step_counterfactual e action
  step_in draws synthetic e action = step_market draws e action
  step_in draws historical e action = step_market draws e action

  unfoldable pub step : Rng F G → RlEnv F G → ℕ → RlEnv F G × StepResult F
  unfolding step_in
  step draws e action = step_in draws e.cfg.mode e action
