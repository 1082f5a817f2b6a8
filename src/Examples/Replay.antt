-- ===== src/Examples/Replay.antt =====
-- The adversarial, the replayed and the counterfactual book, and a day of trades, at concrete inputs.
use strata_exec.Prelude.{ℕ, ◌≡◌, ◌-◌, true, false, [], ◌∷◌, map, arith, All, length}
use strata_exec.Prelude.Int.{ℤ, ◌≤ℤ◌, ◌+ℤ◌, ◌-ℤ◌}
use strata_exec.Float.{lit, nought}
use strata_exec.Float.Fixed.{fixed_float, fixed_rounding, fixed-IsExact}
use strata_exec.Float.Order.{IsNonneg, ◌≼◌}
use strata_exec.Float.Exact.{Balance, total}
use strata_exec.Market.OrderBook.{PriceLevel}
use strata_exec.Market.OrderBook.Walk.{depth}
use strata_exec.Market.Adversarial.{AdversarialBook, new_adversarial_book, pre_fill, fill}
use strata_exec.Market.Adversarial.Ledger.{held, fill-ledger}
use strata_exec.Market.LobReplay.{LobSnapshot, LobReplay, to_order_book, from_arc, reset, seek, min}
use strata_exec.Market.LobReplay.Drain.{drain, drop, next_snapshot-reset}
use strata_exec.Market.AggTrades.{
  AggTrade, AggTradesDay, imbalance_of, volume_in_window, build_ofi_series,
}
use strata_exec.Market.AggTrades.Windows.{build_ofi_series-eq-map}
use strata_exec.Market.CounterfactualLob.{
  CounterfactualLob, default_config, new_lob, record_trade_and_advance, total_residual_impact,
  permanent_impact,
}
use strata_exec.Market.CounterfactualLob.Impact.{
  IsConfig, started, traded, total_residual_impact_bounds, seek-total_residual_impact,
}
use strata_exec.Examples.Data.{given}

abbrev level : ℤ → ℤ → PriceLevel ℤ
level price quantity = record { price = price; quantity = quantity }

abbrev snapshot : ℕ → ℤ → LobSnapshot ℤ
snapshot t price = record {
  timestamp = t;
  bids = level price (lit 5 0) ∷ level (price -ℤ lit 1 0) (lit 5 0) ∷ [];
  asks = level (price +ℤ lit 1 0) (lit 5 0) ∷ [];
}

abbrev day : LobReplay ℤ
day = from_arc (snapshot 10 (lit 100 0) ∷ snapshot 20 (lit 101 0) ∷ snapshot 30 (lit 99 0) ∷ [])

-- A sale of nearly all the depth, after which a share of the rest is withdrawn.
abbrev hostile : AdversarialBook ℤ
hostile = new_adversarial_book (to_order_book (snapshot 10 (lit 100 0)))

fill-ledger_example :
    let out = fill hostile (lit 8 0) in
    let left = (pre_fill hostile.front_runner hostile.base_book (lit 8 0)).0 in
    Balance
      (held out.0.base_book.bids out.0.withdrawer.withdrawn_depth_per_level)
      out.1.filled_qty
      (depth left.bids)
      (total hostile.withdrawer.withdrawn_depth_per_level)
    × (depth hostile.base_book.bids ≤ℤ depth left.bids +ℤ out.0.last_front_runner_qty)
fill-ledger_example = fill-ledger fixed-IsExact hostile (lit 8 0)

next_snapshot-reset_example :
    (drain 3 (reset day) ≡ map to_order_book day.snapshots)
    × (drain 3 (seek day 7)
        ≡ map to_order_book (drop (min 7 (length day.snapshots - 1)) day.snapshots))
next_snapshot-reset_example = next_snapshot-reset day 7 3 (unfold from_arc in omega arith)

abbrev trade : ℕ → ℤ → AggTrade ℤ
trade t quantity = record {
  timestamp_ms = t;
  price = lit 100 0;
  quantity_btc = quantity;
  is_sell_aggressor = false;
}

abbrev trades : AggTradesDay ℤ
trades = record {
  trades =
      trade 5 (lit 1 0)
      ∷ record (trade 12 (lit 3 0)) { is_sell_aggressor = true }
      ∷ trade 25 (lit 2 0)
      ∷ [];
  skipped_rows = 0;
}

build_ofi_series-eq-map_example :
    build_ofi_series trades (10 ∷ 20 ∷ 30 ∷ []) 15
    ≡ map
        (λ end_ms. imbalance_of (volume_in_window trades (end_ms - 15) end_ms))
        (10 ∷ 20 ∷ 30 ∷ [])
build_ofi_series-eq-map_example =
    build_ofi_series-eq-map trades (10 ∷ 20 ∷ 30 ∷ []) 15
      ((omega arith, (omega arith, tt)), ((omega arith, tt), (tt, tt)))

default_config-IsConfig : IsConfig (default_config {F = ℤ})
unfolding default_config
default_config-IsConfig = record {
  permanent_nonneg = given 3 1;
  temporary_nonneg = given 7 1;
  coefficient_nonneg = given 10715 4;
  sigma_nonneg = given 2 2;
}

-- A book after a sale of 2000 units.
abbrev sold : CounterfactualLob ℤ
sold = record_trade_and_advance (new_lob day default_config) (lit 2000 0)

total_residual_impact_bounds_example :
    IsNonneg (total_residual_impact sold)
    × (total_residual_impact sold ≼ lit 95 2)
    × IsNonneg (permanent_impact sold)
    × (permanent_impact sold ≼ lit 95 2)
    × IsNonneg sold.sold_btc
    × All (λ sale. IsNonneg sale.1) sold.temporary_impacts
total_residual_impact_bounds_example =
    total_residual_impact_bounds default_config sold default_config-IsConfig
      (traded (lit 2000 0) (started day))

seek-total_residual_impact_example :
    (total_residual_impact (strata_exec.Market.CounterfactualLob.seek sold 1) ≡ nought)
    × (permanent_impact (strata_exec.Market.CounterfactualLob.seek sold 1) ≡ nought)
    × (total_residual_impact (strata_exec.Market.CounterfactualLob.reset sold) ≡ nought)
    × (permanent_impact (strata_exec.Market.CounterfactualLob.reset sold) ≡ nought)
seek-total_residual_impact_example = seek-total_residual_impact sold 1
