-- ===== src/Market/CounterfactualLob.antt =====
-- src/market/counterfactual_lob.rs: a replayed book, its prices lowered by the impact of our sales.
pub mod Impact
use strata_exec.Prelude.{
  ℕ, zero, suc, ◌-◌, Bool, true, false, ◌&&◌, Option, none, some, List, [], ◌∷◌, ◌++◌, map, length,
  retain, ltb, if◌then◌else◌,
}
use strata_exec.Float.{Float, ◌⊕◌, ◌⊖◌, ◌⊗◌, ◌⊘◌, ◌<?◌, ◌≤?◌, lit, nought, one, fmin, fmax, fsum}
use strata_exec.Market.OrderBook.{
  OrderBook, new_book, mid_price, rescale_full, total_bid_depth, unwrap_or,
}
use strata_exec.Market.LobReplay.{LobReplay, next_snapshot, len}
use strata_exec.Market.AggTrades.{AggTradesDay, total_volume_btc}

-- The methods of the replay that the book calls by the names it gives to its own.
abbrev pub rewind : {F : Type 0} → LobReplay F → LobReplay F
rewind r = strata_exec.Market.LobReplay.reset r

abbrev pub seek_to : {F : Type 0} → LobReplay F → ℕ → LobReplay F
seek_to r offset = strata_exec.Market.LobReplay.seek r offset

pub record CounterfactualLobConfig (F : Type 0) : Type 0 where
  pub permanent_fraction : F
  pub temporary_fraction : F
  pub rho : F
  pub dt : F
  pub btc_scale : F
  pub adv_btc : F
  pub impact_coefficient : F
  pub sigma : F

pub record CounterfactualLob (F : Type 0) : Type 0 where
  pub replay : LobReplay F
  pub config : CounterfactualLobConfig F
  pub sold_btc : F
  pub temporary_impacts : List (F × F)
  pub current_step : ℕ
  pub depth_ref : F
  pub current_book : Option (OrderBook F)
  pub simulation_mid_price : F
  pub price_factor : F

module _ {F : Type 0} ⦃f : Float F⦄ where
  unfoldable pub default_config : CounterfactualLobConfig F
  default_config = record {
    permanent_fraction = lit 3 1;
    temporary_fraction = lit 7 1;
    rho = lit 5 0;
    dt = one ⊘ lit 2880 0;
    btc_scale = lit 5 2;
    adv_btc = lit 240000 0;
    impact_coefficient = lit 10715 4;
    sigma = lit 2 2;
  }

  -- The log returns of the neighbours that are both above 1e-9.
  unfoldable pub log_returns : List F → List F
  log_returns [] = []
  log_returns (a ∷ []) = []
  log_returns (a ∷ b ∷ mids) =
      let rest = log_returns (b ∷ mids) in
      if (lit 1 9 <? a) && (lit 1 9 <? b) then f.ln (b ⊘ a) ∷ rest else rest

  unfoldable pub deviation : List F → F
  unfolding fsum
  deviation r =
      let n = f.of_usize (length r) in
      let mean = fsum r ⊘ n in
      let var = fsum (map (λ x. (x ⊖ mean) ⊗ (x ⊖ mean)) r) ⊘ (n ⊖ one) in f.sqrt (var ⊗ n)

  unfoldable pub daily_volatility : List F → F
  unfolding log_returns deviation
  daily_volatility mids =
      if ltb (length (log_returns mids)) 2 then nought else deviation (log_returns mids)

  abbrev pub day_volume : Option (AggTradesDay F) → F
  day_volume none = nought
  day_volume (some agg) = total_volume_btc agg

  unfoldable pub calibrated :
      CounterfactualLobConfig F → Option (AggTradesDay F) → List F → CounterfactualLobConfig F
  unfolding daily_volatility total_volume_btc
  calibrated base agg snapshot_mids =
      let sigma = daily_volatility snapshot_mids in
      let volume = day_volume agg in
      record base {
        sigma = if lit 1 9 <? sigma then sigma else base.sigma;
        adv_btc = if nought <? volume then volume else base.adv_btc;
      }

  abbrev pub raw_mid : Option (OrderBook F) → F → F
  raw_mid none d = d
  raw_mid (some b) d = unwrap_or (mid_price b) d

  unfoldable pub price_factor_for : Option (OrderBook F) → F → F
  unfolding mid_price fmax
  price_factor_for book simulation_mid_price =
      simulation_mid_price ⊘ fmax (raw_mid book simulation_mid_price) (lit 1 9)

  unfoldable pub first_depth : CounterfactualLobConfig F → Option (OrderBook F) → F
  unfolding mid_price rescale_full total_bid_depth
  first_depth config none = lit 1000000 0
  first_depth config (some b) =
      let real_mid = unwrap_or (mid_price b) (lit 100 0) in
      total_bid_depth (rescale_full b (lit 100 0 ⊘ real_mid) (one ⊘ config.btc_scale))

  unfoldable pub new_lob : LobReplay F → CounterfactualLobConfig F → CounterfactualLob F
  unfolding next_snapshot first_depth price_factor_for
  new_lob replay config =
      let first = next_snapshot replay in
      let loaded = next_snapshot (rewind first.1) in
      record {
        replay = loaded.1;
        config = config;
        sold_btc = nought;
        temporary_impacts = [];
        current_step = 0;
        depth_ref = first_depth config first.0;
        current_book = loaded.0;
        simulation_mid_price = lit 100 0;
        price_factor = price_factor_for loaded.0 (lit 100 0);
      }

  unfoldable pub impact_of : CounterfactualLob F → F → F
  unfolding fmin fmax
  impact_of c btc =
      if btc ≤? nought
      then nought
      else fmin
          (c.config.impact_coefficient
            ⊗ c.config.sigma
            ⊗ f.sqrt (btc ⊘ fmax c.config.adv_btc (lit 1 9)))
          (lit 95 2)

  -- The weight at the time `now` of a sale at the time `t`.
  unfoldable pub decay : F → F → F → F
  decay rho now t = f.exp (f.neg rho ⊗ (now ⊖ t))

  abbrev pub now : CounterfactualLob F → F
  now c = f.of_usize c.current_step ⊗ c.config.dt

  unfoldable pub decayed_sales : CounterfactualLob F → List F
  unfolding decay
  decayed_sales c = map (λ sale. sale.1 ⊗ decay c.config.rho (now c) sale.0) c.temporary_impacts

  unfoldable pub effective_sold_btc : CounterfactualLob F → F
  unfolding decayed_sales fsum
  effective_sold_btc c =
      c.config.permanent_fraction ⊗ c.sold_btc
      ⊕ c.config.temporary_fraction ⊗ fsum (decayed_sales c)

  unfoldable pub total_residual_impact : CounterfactualLob F → F
  unfolding impact_of effective_sold_btc
  total_residual_impact c = impact_of c (effective_sold_btc c)

  unfoldable pub permanent_impact : CounterfactualLob F → F
  unfolding impact_of
  permanent_impact c = impact_of c (c.config.permanent_fraction ⊗ c.sold_btc)

  unfoldable pub temporary_impact_total : CounterfactualLob F → F
  unfolding total_residual_impact permanent_impact fmax
  temporary_impact_total c = fmax (total_residual_impact c ⊖ permanent_impact c) nought

  unfoldable pub rescale_book : CounterfactualLob F → OrderBook F → OrderBook F
  unfolding rescale_full
  rescale_book c raw_book = rescale_full raw_book c.price_factor (one ⊘ c.config.btc_scale)

  unfoldable pub apply_impact_to_book : OrderBook F → F → OrderBook F
  unfolding rescale_full
  apply_impact_to_book book impact_fraction =
      if impact_fraction ≤? nought then book else rescale_full book (one ⊖ impact_fraction) one

  unfoldable pub current_adjusted_book : CounterfactualLob F → OrderBook F
  unfolding rescale_book total_residual_impact apply_impact_to_book
  current_adjusted_book c = elim c.current_book [
    | none ↦ new_book [] []
    | some raw_book ↦ apply_impact_to_book (rescale_book c raw_book) (total_residual_impact c)
  ]

  unfoldable pub current_undisturbed_mid : CounterfactualLob F → Option F
  unfolding rescale_book mid_price
  current_undisturbed_mid c = elim c.current_book [
    | none ↦ none
    | some raw_book ↦ mid_price (rescale_book c raw_book)
  ]

  unfoldable pub record_sale : CounterfactualLob F → F → CounterfactualLob F
  record_sale c trade_btc =
      if nought <? trade_btc
      then record c {
        sold_btc = c.sold_btc ⊕ trade_btc;
        temporary_impacts = c.temporary_impacts ++ (now c, trade_btc) ∷ [];
      }
      else c

  -- The sales whose weight has decayed to nothing are dropped.
  unfoldable pub prune : CounterfactualLob F → CounterfactualLob F
  unfolding decay retain
  prune c = record c {
    temporary_impacts =
        retain (λ sale. lit 1 12 <? decay c.config.rho (now c) sale.0) c.temporary_impacts;
  }

  unfoldable pub advance_without_trade : CounterfactualLob F → CounterfactualLob F
  unfolding next_snapshot
  advance_without_trade c =
      let next = next_snapshot c.replay in
      record c { replay = next.1; current_book = next.0; current_step = suc c.current_step }

  unfoldable pub record_trade_and_advance : CounterfactualLob F → F → CounterfactualLob F
  unfolding record_sale prune advance_without_trade fmax
  record_trade_and_advance c trade_qty_units =
      advance_without_trade
        (prune (record_sale c (fmax trade_qty_units nought ⊗ c.config.btc_scale)))

  -- The lines that `reset` and `seek` share, from the replay at its new cursor.
  unfoldable pub restart : CounterfactualLob F → LobReplay F → CounterfactualLob F
  unfolding next_snapshot price_factor_for
  restart c replay =
      let next = next_snapshot replay in
      record c {
        replay = next.1;
        sold_btc = nought;
        temporary_impacts = [];
        current_step = 0;
        current_book = next.0;
        price_factor = price_factor_for next.0 c.simulation_mid_price;
      }

  unfoldable pub reset : CounterfactualLob F → CounterfactualLob F
  unfolding restart
  reset c = restart c (rewind c.replay)

  unfoldable pub seek : CounterfactualLob F → ℕ → CounterfactualLob F
  unfolding restart
  seek c offset = restart c (seek_to c.replay offset)

  unfoldable pub is_exhausted : CounterfactualLob F → Bool
  is_exhausted c = elim c.current_book [ none ↦ true | some b ↦ false ]

  unfoldable pub set_btc_scale : CounterfactualLob F → F → CounterfactualLob F
  unfolding fmax
  set_btc_scale c btc_scale = record c {
    config = record c.config { btc_scale = fmax btc_scale (lit 1 12) };
  }

  unfoldable pub replay_len : CounterfactualLob F → ℕ
  unfolding len
  replay_len c = len c.replay

  unfoldable pub real_total_bid_depth : CounterfactualLob F → F
  unfolding fsum
  real_total_bid_depth c = elim c.current_book [
    | none ↦ nought
    | some b ↦ fsum (map (λ l. l.quantity ⊗ (one ⊘ c.config.btc_scale)) b.bids)
  ]
