-- ===== src/Market/LobReplay/Parse.antt =====
-- src/market/lob_replay.rs: the two layouts of the depth snapshots, from the cells of the file to
-- the snapshots. The readers of the `csv` crate, of `f64` and of dates are parameters.
use strata_exec.Prelude.{
  ℕ, suc, ◌&&◌, ◌||◌, Option, none, some, List, [], ◌∷◌, map, get_elem?, retain, if◌then◌else◌,
  Result, ok, err,
}
use strata_exec.Prelude.Int.{ℤ, pos, ltb_ℤ, eqb_ℤ, ◌-ℤ◌}
use strata_exec.Float.{Float, ◌⊖◌, ◌⊘◌, ◌<?◌, lit, nought, fabs}
use strata_exec.Market.OrderBook.{PriceLevel, unwrap_or}
use strata_exec.Market.LobReplay.{LobSnapshot, LobReplay, from_arc, is_nil}
use strata_exec.Prelude.Text.{Text, codes, trim, to_lowercase, parse_u64, parse_i32, position}
use strata_exec.Market.LobReplay.Cells.{
  Csv, ParseError, unreadable, missing_column, unrecognised_timestamp, no_valid_snapshots, TallRow,
  TallColumns, is_binance_tall_format, col_idx, as_u64, file_row, sort_by_key, collect_level_pairs,
  cell,
}

module _ {F : Type 0} ⦃f : Float F⦄ where
  unfoldable pub infer_price : F → F → F
  unfolding fabs
  infer_price notional depth = if fabs depth <? lit 1 15 then lit 100 0 else notional ⊘ depth

  -- One row after the cumulative `prev_depth` and `prev_notional`, before the levels of the rest.
  unfoldable pub push_level : F → F → List (PriceLevel F) → List (PriceLevel F)
  unfolding infer_price
  push_level dq dn levels =
      if (lit 1 12 <? dq) && (nought <? infer_price dn dq)
      then (record { price = infer_price dn dq; quantity = dq }) ∷ levels
      else levels

  unfoldable pub diff_from : F → F → List (TallRow F) → List (PriceLevel F)
  unfolding push_level
  diff_from prev_depth prev_notional [] = []
  diff_from prev_depth prev_notional (row ∷ rows) =
      push_level (row.cum_depth ⊖ prev_depth) (row.cum_notional ⊖ prev_notional)
        (diff_from row.cum_depth row.cum_notional rows)

  unfoldable pub diff_levels : List (TallRow F) → List (PriceLevel F)
  unfolding diff_from
  diff_levels rows = diff_from nought nought rows

  abbrev pub tall_row : Text → Option ℤ → Option F → Option F → Option (TallRow F)
  tall_row ts (some pct) (some cum_depth) (some cum_notional) =
      if eqb_ℤ pct (pos 0) || cum_depth <? nought
      then none
      else some (record {
        timestamp = ts;
        percentage = pct;
        cum_depth = cum_depth;
        cum_notional = cum_notional;
      })
  tall_row ts none _ _ = none
  tall_row ts (some pct) none _ = none
  tall_row ts (some pct) (some cum_depth) none = none

  module _ (parse_f64 : Text → Option F) (parse_date : Text → Option ℤ) where
    -- `none` where the loop goes on without a row.
    unfoldable pub read_tall : TallColumns → Option (List Text) → Option (TallRow F)
    unfolding trim parse_i32
    read_tall c none = none
    read_tall c (some rec) = elim (get_elem? rec c.ts_col) [
      | none ↦ none
      | some ts ↦
          tall_row (trim ts) (cell rec c.pct_col parse_i32) (cell rec c.depth_col parse_f64)
            (cell rec c.notional_col parse_f64)
    ]

    -- The loop over the records, with the groups of the records before.
    unfoldable pub group_rows :
        TallColumns
        → List (Option (List Text))
        → List (Text × List (TallRow F))
        → List (Text × List (TallRow F))
    unfolding read_tall file_row
    group_rows c [] groups = groups
    group_rows c (rec ∷ recs) groups =
        group_rows c recs
          (elim (read_tall c rec) [ none ↦ groups | some row ↦ file_row row groups ])

    unfoldable pub parse_timestamp_ms : Text → Result ParseError ℕ
    unfolding parse_u64
    parse_timestamp_ms s = elim (parse_u64 s) [
      | some ms ↦ ok ms
      | none ↦ elim (parse_date s) [
        | some millis ↦ ok (as_u64 millis)
        | none ↦ err (unrecognised_timestamp s)
      ]
    ]

    abbrev pub push_snapshot :
        Result ParseError ℕ
        → List (PriceLevel F)
        → List (PriceLevel F)
        → Result ParseError (List (LobSnapshot F))
        → Result ParseError (List (LobSnapshot F))
    push_snapshot (err e) bids asks rest = err e
    push_snapshot (ok t) bids asks (err e) = err e
    push_snapshot (ok t) bids asks (ok snapshots) =
        ok ((record { timestamp = t; bids = bids; asks = asks }) ∷ snapshots)

    -- The loop over the groups; a stamp that is not read ends it with an error.
    unfoldable pub snapshots_of :
        List (Text × List (TallRow F)) → Result ParseError (List (LobSnapshot F))
    unfolding retain sort_by_key diff_levels parse_timestamp_ms trim
    snapshots_of [] = ok []
    snapshots_of ((ts, rows) ∷ groups) =
        let bid_rows = retain (λ row. ltb_ℤ row.percentage (pos 0)) rows in
        let ask_rows = retain (λ row. ltb_ℤ (pos 0) row.percentage) rows in
        let bids = diff_levels (sort_by_key (λ row. pos 0 -ℤ row.percentage) bid_rows) in
        let asks = diff_levels (sort_by_key (λ row. row.percentage) ask_rows) in
        let rest = snapshots_of groups in
        if is_nil bids || is_nil asks
        then rest
        else push_snapshot (parse_timestamp_ms (trim ts)) bids asks rest

    abbrev pub need :
        {A : Type 0} → List Text → Text → (ℕ → Result ParseError A) → Result ParseError A
    need headers name k = elim (col_idx headers name) [
      | none ↦ err (missing_column name)
      | some i ↦ k i
    ]

    unfoldable pub parse_binance_tall : Csv → Result ParseError (List (LobSnapshot F))
    unfolding group_rows snapshots_of position trim to_lowercase
    parse_binance_tall file =
        let headers = map (λ h. to_lowercase (trim h)) file.headers in
        need headers (codes "timestamp") (λ ts_col. need headers (codes "percentage") (λ pct_col.
          need headers (codes "depth") (λ depth_col.
            need headers (codes "notional") (λ notional_col. snapshots_of (
              group_rows
                (record {
                  ts_col = ts_col;
                  pct_col = pct_col;
                  depth_col = depth_col;
                  notional_col = notional_col;
                })
                file.records [])))))

    -- One level of a row of the wide layout, `none` where it is passed over.
    unfoldable pub wide_level : List Text → ℕ × ℕ → Option (PriceLevel F)
    unfolding trim
    wide_level rec (p_col, q_col) = elim (cell rec p_col parse_f64) [
      | none ↦ none
      | some price ↦ elim (cell rec q_col parse_f64) [
        | none ↦ none
        | some qty ↦
            if (nought <? price) && (nought <? qty)
            then some (record { price = price; quantity = qty })
            else none
      ]
    ]

    unfoldable pub parse_wide_levels : List Text → List (ℕ × ℕ) → List (PriceLevel F)
    unfolding wide_level
    parse_wide_levels rec [] = []
    parse_wide_levels rec (pair ∷ pairs) = elim (wide_level rec pair) [
      | none ↦ parse_wide_levels rec pairs
      | some level ↦ level ∷ parse_wide_levels rec pairs
    ]

    -- The loop over the records from the row `row_idx`.
    unfoldable pub wide_rows :
        Option ℕ
        → List (ℕ × ℕ)
        → List (ℕ × ℕ)
        → ℕ
        → List (Option (List Text))
        → List (LobSnapshot F)
    unfolding parse_wide_levels parse_u64 trim
    wide_rows ts_col bid_pairs ask_pairs row_idx [] = []
    wide_rows ts_col bid_pairs ask_pairs row_idx (none ∷ recs) =
        wide_rows ts_col bid_pairs ask_pairs (suc row_idx) recs
    wide_rows ts_col bid_pairs ask_pairs row_idx (some rec ∷ recs) =
        let rest = wide_rows ts_col bid_pairs ask_pairs (suc row_idx) recs in
        let bids = parse_wide_levels rec bid_pairs in
        let asks = parse_wide_levels rec ask_pairs in
        let stamp : Option ℕ = elim ts_col [ none ↦ none | some c ↦ cell rec c parse_u64 ] in
        if is_nil bids || is_nil asks
        then rest
        else (record { timestamp = unwrap_or stamp row_idx; bids = bids; asks = asks }) ∷ rest

    unfoldable pub parse_wide : Csv → List Text → List (LobSnapshot F)
    unfolding position collect_level_pairs wide_rows
    parse_wide file headers =
        wide_rows (position (codes "timestamp") headers) (collect_level_pairs headers b'b')
          (collect_level_pairs headers b'a') 0 file.records

    abbrev pub replay_of :
        Result ParseError (List (LobSnapshot F)) → Result ParseError (LobReplay F)
    replay_of (err e) = err e
    replay_of (ok []) = err no_valid_snapshots
    replay_of (ok (s ∷ snapshots)) = ok (from_arc (s ∷ snapshots))

    -- `read_csv` is the reader's opening of the file, `none` where that fails.
    unfoldable pub from_csv : (Text → Option Csv) → Text → Result ParseError (LobReplay F)
    unfolding is_binance_tall_format parse_binance_tall parse_wide from_arc trim to_lowercase
    from_csv read_csv path = elim (read_csv path) [
      | none ↦ err unreadable
      | some file ↦
          let headers = map (λ h. to_lowercase (trim h)) file.headers in
          replay_of (
            if is_binance_tall_format headers
            then parse_binance_tall file
            else ok (parse_wide file headers))
    ]
