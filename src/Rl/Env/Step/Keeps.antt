-- ===== src/Rl/Env/Step/Keeps.antt =====
-- src/bin/rl_env/env: what a market's advance and a sale leave as it was.
use strata_exec.Prelude.{◌≡◌, refl, Option, none, some, inl, inr, Bool-cases}
use strata_exec.Float.{Float, ◌<?◌, lit}
use strata_exec.Market.OrderBook.{OrderBook}
use strata_exec.Market.Simulators.{Rng, GarchSimulator}
use strata_exec.Market.LobReplay.{LobReplay, next_snapshot}
use strata_exec.Market.CounterfactualLob.{CounterfactualLob}
use strata_exec.Rl.Config.{RlMode, synthetic, historical, counterfactual}
use strata_exec.Rl.Env.{RlEnv, AdversarialState}
use strata_exec.Rl.Env.Observe.{
  push_return, take_snapshot, advance_historical, advance_synthetic, advance_in, trim_history,
}
use strata_exec.Rl.Env.Fills.{sell_against, sell_from, voluntary_sale}
use strata_exec.Rl.Env.Step.{sync_book}

module _ {F G : Type 0} ⦃f : Float F⦄ where
  -- What the market's advance leaves alone.
  pub record Keeps (e e' : RlEnv F G) : Type 0 where
    pub cfg : e'.cfg ≡ e.cfg
    pub step : e'.step_idx ≡ e.step_idx
    pub filled : e'.total_filled ≡ e.total_filled
    pub left : e'.remaining ≡ e.remaining

  same : (e : RlEnv F G) → Keeps e e
  same e = record { cfg = refl; step = refl; filled = refl; left = refl }

  push_return-Keeps : (e : RlEnv F G) (r : F) → Keeps e (push_return e r)
  unfolding push_return
  push_return-Keeps e r = elim (Bool-cases (f.is_finite r)) [
    | inl k ↦ rw k (record { cfg = refl; step = refl; filled = refl; left = refl })
    | inr k ↦ rw k (same e)
  ]

  take_snapshot-Keeps :
      (e : RlEnv F G) (book : Option (OrderBook F)) → Keeps e (take_snapshot e book)
  unfolding take_snapshot
  take_snapshot-Keeps e none = same e
  take_snapshot-Keeps e (some book) =
      let k = push_return-Keeps e _ in
      record { cfg = k.cfg; step = k.step; filled = k.filled; left = k.left }

  advance_historical-Keeps :
      (e : RlEnv F G) (replay : Option (LobReplay F)) → Keeps e (advance_historical e replay)
  unfolding advance_historical
  advance_historical-Keeps e none = same e
  advance_historical-Keeps e (some replay) =
      let k =
        take_snapshot-Keeps (record e { lob_replay = some (next_snapshot replay).1 })
          (next_snapshot replay).0 in
      record { cfg = k.cfg; step = k.step; filled = k.filled; left = k.left }

  module _ (draws : Rng F G) where
    advance_synthetic-Keeps :
        (e : RlEnv F G) (sim : Option (GarchSimulator F G))
        → Keeps e (advance_synthetic draws e sim)
    unfolding advance_synthetic
    advance_synthetic-Keeps e none = same e
    advance_synthetic-Keeps e (some sim) =
        let k = push_return-Keeps e _ in
        record { cfg = k.cfg; step = k.step; filled = k.filled; left = k.left }

    pub advance_in-Keeps : (mode : RlMode) (e : RlEnv F G) → Keeps e (advance_in draws mode e)
    unfolding advance_in trim_history
    advance_in-Keeps counterfactual e = same e
    advance_in-Keeps synthetic e =
        let k = advance_synthetic-Keeps e e.sim in
        record { cfg = k.cfg; step = k.step; filled = k.filled; left = k.left }
    advance_in-Keeps historical e =
        let k = advance_historical-Keeps e e.lob_replay in
        record { cfg = k.cfg; step = k.step; filled = k.filled; left = k.left }

  sell_against-Keeps :
      (e : RlEnv F G) (book : OrderBook F) (adv : Option (AdversarialState F)) (q mid : F)
      → Keeps e (sell_against e book adv q mid).0
  unfolding sell_against
  sell_against-Keeps e book none q mid = record {
    cfg = refl;
    step = refl;
    filled = refl;
    left = refl;
  }
  sell_against-Keeps e book (some adv) q mid = record {
    cfg = refl;
    step = refl;
    filled = refl;
    left = refl;
  }

  sell_from-Keeps :
      (e : RlEnv F G) (book : Option (OrderBook F)) (q mid : F) → Keeps e (sell_from e book q mid).0
  unfolding sell_from
  sell_from-Keeps e none q mid = same e
  sell_from-Keeps e (some book) q mid = sell_against-Keeps e book e.adversarial q mid

  pub voluntary_sale-Keeps : (e : RlEnv F G) (q mid : F) → Keeps e (voluntary_sale e q mid).0
  unfolding voluntary_sale
  voluntary_sale-Keeps e q mid = elim (Bool-cases (lit 1 9 <? q)) [
    | inl k ↦ rw k (sell_from-Keeps e e.current_book q mid)
    | inr k ↦ rw k (same e)
  ]

  pub sync_book-Keeps :
      (e : RlEnv F G) (cf : Option (CounterfactualLob F)) → Keeps e (sync_book e cf)
  unfolding sync_book trim_history
  sync_book-Keeps e none = same e
  sync_book-Keeps e (some cf) =
      let k = push_return-Keeps e _ in
      record { cfg = k.cfg; step = k.step; filled = k.filled; left = k.left }
