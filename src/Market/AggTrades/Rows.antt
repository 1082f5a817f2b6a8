-- ===== src/Market/AggTrades/Rows.antt =====
-- src/market/agg_trades.rs: the rows of the file. The readers of the `csv` crate and of `f64` are
-- parameters.
use strata_exec.Prelude.{
  ℕ, suc, Bool, Option, none, some, List, [], ◌∷◌, map, Result, ok, err, if◌then◌else◌,
}
use strata_exec.Float.{Float, ◌<?◌, nought}
use strata_exec.Prelude.Text.{Text, codes, same, trim, to_lowercase, parse_u64, position}
use strata_exec.Market.LobReplay.Cells.{Csv, ParseError, unreadable, missing_column, cell}
use strata_exec.Market.AggTrades.{AggTrade, AggTradesDay}

-- The columns that the reader looks up by name.
pub record TradeColumns : Type 0 where
  pub ts_col : ℕ
  pub px_col : ℕ
  pub qty_col : ℕ
  pub ibm_col : ℕ

abbrev pub keep_row : {F : Type 0} → Option (AggTrade F) → AggTradesDay F → AggTradesDay F
keep_row none d = record d { skipped_rows = suc d.skipped_rows }
keep_row (some t) d = record d { trades = t ∷ d.trades }

module _ {F : Type 0} ⦃f : Float F⦄ where
  -- `Some(v) if v > 0.0`
  abbrev pub positive : Option F → Option F
  positive none = none
  positive (some v) = if nought <? v then some v else none

  abbrev pub trade_of : Option ℕ → Option F → Option F → Option Bool → Option (AggTrade F)
  trade_of (some ts) (some price) (some qty) (some sell) =
      some
        (record { timestamp_ms = ts; price = price; quantity_btc = qty; is_sell_aggressor = sell })
  trade_of none _ _ _ = none
  trade_of (some ts) none _ _ = none
  trade_of (some ts) (some price) none _ = none
  trade_of (some ts) (some price) (some qty) none = none

  module _ (parse_f64 : Text → Option F) where
    -- `none` where the row is skipped.
    unfoldable pub read_trade : TradeColumns → Option (List Text) → Option (AggTrade F)
    unfolding trim parse_u64 same to_lowercase
    read_trade c none = none
    read_trade c (some rec) =
        trade_of (cell rec c.ts_col parse_u64) (positive (cell rec c.px_col parse_f64))
          (positive (cell rec c.qty_col parse_f64))
          (cell rec c.ibm_col (λ v. some (same (to_lowercase v) (codes "true"))))

    unfoldable pub read_rows : TradeColumns → List (Option (List Text)) → AggTradesDay F
    unfolding read_trade
    read_rows c [] = record { trades = []; skipped_rows = 0 }
    read_rows c (rec ∷ recs) = keep_row (read_trade c rec) (read_rows c recs)

    abbrev pub column :
        {A : Type 0} → List Text → Text → (ℕ → Result ParseError A) → Result ParseError A
    column headers name k = elim (position name headers) [
      | none ↦ err (missing_column name)
      | some i ↦ k i
    ]

    unfoldable pub from_csv : (Text → Option Csv) → Text → Result ParseError (AggTradesDay F)
    unfolding read_rows position trim
    from_csv read_csv path = elim (read_csv path) [
      | none ↦ err unreadable
      | some file ↦
          let headers = map trim file.headers in
          column headers (codes "transact_time") (λ ts_col.
            column headers (codes "price") (λ px_col. column headers (codes "quantity") (λ qty_col.
              column headers (codes "is_buyer_maker") (λ ibm_col. ok (
                read_rows
                  (record {
                    ts_col = ts_col;
                    px_col = px_col;
                    qty_col = qty_col;
                    ibm_col = ibm_col;
                  })
                  file.records)))))
    ]
