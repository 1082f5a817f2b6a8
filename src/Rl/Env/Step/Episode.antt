-- ===== src/Rl/Env/Step/Episode.antt =====
-- src/bin/rl_env/env/execution.rs: what one step guarantees, in every mode.
use strata_exec.Prelude.{
  ℕ, suc, ◌+◌, ◌≤◌, [], ◌∷◌, length, ◌≡◌, refl, ap, ◌∙◌, Bool, true, ◌||◌, List, leb, arith,
}
use strata_exec.Prelude.Int.{pos_part, neg_part}
use strata_exec.Float.{Float, ◌⊗◌, lit, nought, fmax}
use strata_exec.Float.Laws.{IsRounding, IsExact}
use strata_exec.Float.Order.{◌≼◌, IsNonneg}
use strata_exec.Float.Exact.{Balance}
use strata_exec.Market.OrderBook.{unwrap_or, mid_price}
use strata_exec.Market.Simulators.{Rng}
use strata_exec.Rl.Config.{RlMode, synthetic, historical, counterfactual}
use strata_exec.Rl.Env.{RlEnv}
use strata_exec.Rl.Env.Observe.{advance_in, advance_market, mid_or}
use strata_exec.Rl.Env.Fills.{Fill, voluntary_sale, record_fill}
use strata_exec.Rl.Env.Step.{
  Closing, StepResult, trade_market, close_market, step_market, trade_counterfactual,
  close_counterfactual, step_counterfactual, step_in, step, time_done, fraction_of, close,
  adjusted_book, counterfactual_sale, exhausted, tick, advance_lob, result_of,
}
use strata_exec.Rl.Env.Step.Fractions.{intended_bounds}
use strata_exec.Rl.Env.Step.Ledger.{
  Conserves, Closes, voluntary_sale-IsFill, counterfactual_sale-IsFill, record_fill-Conserves,
  close-Closes,
}
use strata_exec.Rl.Env.Step.Keeps.{Keeps, advance_in-Keeps, sync_book-Keeps, voluntary_sale-Keeps}

module _ {F G : Type 0} ⦃f : Float F⦄ where
  -- The results of the actions taken in turn, the last one.
  unfoldable pub play : Rng F G → RlEnv F G → ℕ → List ℕ → RlEnv F G × StepResult F
  unfolding step
  play draws e action [] = step draws e action
  play draws e action (next ∷ actions) = play draws (step draws e action).0 next actions

le→leb : (a b : ℕ) → a ≤ b → leb a b ≡ true
le→leb a b h = ground arith

leb_congr : {a b c d : ℕ} → a ≡ b → c ≡ d → leb a c ≡ leb b d
leb_congr {b = b} {c = c} p q = ap (λ n. leb n c) p ∙ ap (λ n. leb b n) q

left_or : {a : Bool} (b : Bool) → a ≡ true → (a || b) ≡ true
left_or b e = rw e refl

parts :
    {F : Type 0} ⦃f : Float F⦄ ⦃r : IsRounding F⦄ {a b : F}
    → a ≡ b
    → (pos_part (r.val a) ≡ pos_part (r.val b)) × (neg_part (r.val a) ≡ neg_part (r.val b))
parts ⦃r = r⦄ e = (ap (λ v. pos_part (r.val v)) e, ap (λ v. neg_part (r.val v)) e)

module _ {F G : Type 0} ⦃f : Float F⦄ ⦃r : IsRounding F⦄ (x : IsExact F r) where
  chain :
      {a b c d : RlEnv F G}
      → Keeps a b
      → Conserves x b c
      → d.cfg ≡ c.cfg
      → d.total_filled ≡ c.total_filled
      → d.remaining ≡ c.remaining
      → Conserves x a d
  chain k s cfg filled left = record {
    cfg = cfg ∙ s.cfg ∙ k.cfg;
    ledger = omega (arith, s.ledger, parts k.filled, parts k.left, parts filled, parts left);
    left_nonneg = omega (arith, s.left_nonneg, parts left);
  }

  record Trades (e e' : RlEnv F G) : Type 0 where
    conserves : Conserves x e e'
    step : e'.step_idx ≡ suc e.step_idx

  -- A sale of at most what is left, recorded, with fields that the ledger does not read changed after.
  sold_then :
      (e : RlEnv F G) (q : F) (sale : RlEnv F G × Fill F) (after : RlEnv F G)
      → Keeps e sale.0
      → IsNonneg sale.1.qty × (sale.1.qty ≼ q)
      → q ≼ e.remaining
      → let recorded = record_fill sale.0 sale.1 in
        (after.cfg ≡ recorded.cfg)
          × (after.step_idx ≡ suc recorded.step_idx)
          × (after.total_filled ≡ recorded.total_filled)
          × (after.remaining ≡ recorded.remaining)
        → Trades e after
  sold_then e q sale after k fill h kept = record {
    conserves =
        chain k
          (record_fill-Conserves x sale.0 sale.1 (fill.0, omega (arith, fill.1, h, parts k.left)))
          kept.0 kept.2 kept.3;
    step = kept.1 ∙ ap suc (unfold record_fill in k.step);
  }

  trade_market-Trades :
      (draws : Rng F G) (e : RlEnv F G) (action : ℕ)
      → IsNonneg e.remaining
      → Trades e (trade_market draws e action).0
  unfolding trade_market advance_market
  trade_market-Trades draws e action h =
      let q = fraction_of action ⊗ e.remaining in
      let bounds = intended_bounds action e.remaining h in
      let book_mid = mid_or e.current_book e.current_mid in
      let sale = voluntary_sale e q book_mid in
      let ticked = tick (record_fill sale.0 sale.1) in
      let k = advance_in-Keeps draws ticked.cfg.mode ticked in
      sold_then e q sale (advance_in draws ticked.cfg.mode ticked)
        (voluntary_sale-Keeps e q book_mid) (voluntary_sale-IsFill x e q book_mid bounds.0) bounds.1
        (k.cfg, k.step, k.filled, k.left)

  trade_counterfactual-Trades :
      (e : RlEnv F G) (action : ℕ)
      → IsNonneg e.remaining
      → Trades e (trade_counterfactual e action).0
  unfolding trade_counterfactual
  trade_counterfactual-Trades e action h =
      let q = fraction_of action ⊗ e.remaining in
      let bounds = intended_bounds action e.remaining h in
      let book = adjusted_book e in
      let book_mid = unwrap_or (mid_price book) e.current_mid in
      let sale = counterfactual_sale book q book_mid in
      let lob = advance_lob e.cf_lob (fmax q nought) in
      let moved : RlEnv F G = record e { cf_lob = lob } in
      let k = sync_book-Keeps (record_fill moved sale.1) lob in
      sold_then e q (moved, sale.1) (trade_counterfactual e action).0
        (record { cfg = refl; step = refl; filled = refl; left = refl })
        (counterfactual_sale-IsFill x book q book_mid bounds.0) bounds.1
        (k.cfg, ap suc k.step, k.filled, k.left)

  -- What one step guarantees.
  pub record Steps (e : RlEnv F G) (out : RlEnv F G × StepResult F) : Type 0 where
    pub conserves : Conserves x e out.0
    pub counted : out.0.step_idx ≡ suc e.step_idx
    pub sold : out.1.done ≡ true → out.0.remaining ≼ lit 1 12
    pub stops : leb e.cfg.total_steps (suc e.step_idx) ≡ true → out.1.done ≡ true

  closed :
      (ended : Bool) (e e' : RlEnv F G) (c : Closing F G) (reward : F)
      → Trades e e'
      → Closes x ended e' c
      → (time_done e' ≡ true → ended ≡ true)
      → Steps e (c.env, result_of c reward)
  unfolding result_of
  closed ended e e' c reward t k h = record {
    conserves = record {
      cfg = k.conserves.cfg ∙ t.conserves.cfg;
      ledger = omega (arith, k.conserves.ledger, t.conserves.ledger);
      left_nonneg = k.conserves.left_nonneg;
    };
    counted = k.step ∙ t.step;
    sold = k.sold;
    stops =
        λ done. k.stops (h (leb_congr (ap (λ cfg. cfg.total_steps) t.conserves.cfg) t.step ∙ done));
  }

  -- The step of the historical and synthetic modes, whose dump changes the environment's own book.
  step_market-Steps :
      (draws : Rng F G) (e : RlEnv F G) (action : ℕ)
      → IsNonneg e.remaining
      → Steps e (step_market draws e action)
  unfolding step_market close_market
  step_market-Steps draws e action h =
      let traded = trade_market draws e action in
      let t = trade_market-Trades draws e action h in
      let mid = mid_or traded.0.current_book traded.0.arrival_price in
      let c = close (time_done traded.0) traded.0 traded.0.current_book mid mid in
      let k =
        close-Closes x (time_done traded.0) traded.0 traded.0.current_book mid mid
          t.conserves.left_nonneg in
      closed (time_done traded.0) e traded.0
        (record c { env = record c.env { current_book = c.book } }) traded.1 t
        (record {
          conserves = record {
            cfg = k.conserves.cfg;
            ledger = k.conserves.ledger;
            left_nonneg = k.conserves.left_nonneg;
          };
          step = k.step;
          sold = k.sold;
          stops = k.stops;
        })
        (λ done. done)

  step_counterfactual-Steps :
      (e : RlEnv F G) (action : ℕ) → IsNonneg e.remaining → Steps e (step_counterfactual e action)
  unfolding step_counterfactual close_counterfactual
  step_counterfactual-Steps e action h =
      let traded = trade_counterfactual e action in
      let t = trade_counterfactual-Trades e action h in
      let ended = time_done traded.0 || exhausted traded.0.cf_lob in
      closed ended e traded.0 (close_counterfactual traded.0 traded.2 _) traded.1 t
        (close-Closes x ended traded.0 _ _ _ t.conserves.left_nonneg)
        (left_or (exhausted traded.0.cf_lob))

  step_in-Steps :
      (draws : Rng F G) (mode : RlMode) (e : RlEnv F G) (action : ℕ)
      → IsNonneg e.remaining
      → Steps e (step_in draws mode e action)
  unfolding step_in
  step_in-Steps draws counterfactual e action h = step_counterfactual-Steps e action h
  step_in-Steps draws synthetic e action h = step_market-Steps draws e action h
  step_in-Steps draws historical e action h = step_market-Steps draws e action h

  -- One step in any mode, from an inventory that is not negative and with any action, sums being exact.
  -- The quantity filled so far and the quantity left add up as before, and what is left is not
  -- negative; the configuration is kept and one step is counted; when the step reports the episode
  -- done at most 1e-12 is left; and it reports that once the horizon is reached.
  pub step-Steps :
      (draws : Rng F G) (e : RlEnv F G) (action : ℕ)
      → IsNonneg e.remaining
      → Steps e (step draws e action)
  unfolding step
  step-Steps draws e action h = step_in-Steps draws e.cfg.mode e action h

  -- An episode that is played to its horizon or past it, whatever the actions, sums being exact, ends with
  -- a result that reports it done, with at most 1e-12 of the inventory left, and with all the rest of
  -- what there was at the start filled.
  pub play-Ends :
      (draws : Rng F G) (e : RlEnv F G) (action : ℕ) (actions : List ℕ)
      → IsNonneg e.remaining
      → e.cfg.total_steps ≤ e.step_idx + suc (length actions)
      → let out = play draws e action actions in
        (out.1.done ≡ true)
        × (out.0.remaining ≼ lit 1 12)
        × Balance
            (r.val out.0.total_filled)
            (r.val out.0.remaining)
            (r.val e.total_filled)
            (r.val e.remaining)
  unfolding play
  play-Ends draws e action [] h k =
      let s = step-Steps draws e action h in
      let done = s.stops (le→leb e.cfg.total_steps (suc e.step_idx) (omega arith)) in
      (done, s.sold done, s.conserves.ledger)
  play-Ends draws e action (next ∷ actions) h k =
      let s = step-Steps draws e action h in
      let e' = (step draws e action).0 in
      let rest =
        play-Ends draws e' next actions s.conserves.left_nonneg
          (omega (arith, s.counted, ap (λ c. c.total_steps) s.conserves.cfg)) in
      (rest.0, rest.1, omega (arith, rest.2, s.conserves.ledger))
