-- ===== src/Rl/Cache.antt =====
-- src/bin/rl_env/market_cache.rs: the data of each date, parsed once.
use strata_exec.Prelude.{Option, none, some, List, [], ◌∷◌, Result, ok, err, if◌then◌else◌}
use strata_exec.Prelude.Int.{ℤ}
use strata_exec.Prelude.Text.{Text, same}
use strata_exec.Float.{Float}
use strata_exec.Market.LobReplay.{LobSnapshot, LobReplay, from_arc}
use strata_exec.Market.LobReplay.Cells.{Csv, ParseError}
use strata_exec.Market.AggTrades.{AggTradesDay}

-- What is on disk: the outcome of reading each path.
pub record Files (F : Type 0) : Type 0 where
  pub lob_csv : Text → Result ParseError (LobReplay F)
  pub agg_csv : Text → Result ParseError (AggTradesDay F)

pub record MarketDataCache (F : Type 0) : Type 0 where
  pub lob : List (Text × List (LobSnapshot F))
  pub agg : List (Text × AggTradesDay F)

-- The value under a key of the map.
unfoldable pub find : {A : Type 0} → Text → List (Text × A) → Option A
unfolding same
find key [] = none
find key ((k, a) ∷ rest) = let later = find key rest in if same k key then some a else later

module _ {F : Type 0} where
  abbrev pub no_data : MarketDataCache F
  no_data = record { lob = []; agg = [] }

  -- The path's entry, or the file, which is then entered.
  unfoldable pub lob_or_read :
      MarketDataCache F
      → Text
      → Option (List (LobSnapshot F))
      → Result ParseError (LobReplay F)
      → MarketDataCache F × Result ParseError (LobReplay F)
  unfolding from_arc
  lob_or_read c path (some snapshots) read = (c, ok (from_arc snapshots))
  lob_or_read c path none (err e) = (c, err e)
  lob_or_read c path none (ok replay) =
      (record c { lob = (path, replay.snapshots) ∷ c.lob }, ok (from_arc replay.snapshots))

  unfoldable pub load_lob :
      Files F → MarketDataCache F → Text → MarketDataCache F × Result ParseError (LobReplay F)
  unfolding lob_or_read find
  load_lob files c path = lob_or_read c path (find path c.lob) (files.lob_csv path)

  unfoldable pub agg_or_read :
      MarketDataCache F
      → Text
      → Option (AggTradesDay F)
      → Result ParseError (AggTradesDay F)
      → MarketDataCache F × Result ParseError (AggTradesDay F)
  agg_or_read c path (some agg) read = (c, ok agg)
  agg_or_read c path none (err e) = (c, err e)
  agg_or_read c path none (ok agg) = (record c { agg = (path, agg) ∷ c.agg }, ok agg)

  unfoldable pub load_agg :
      Files F → MarketDataCache F → Text → MarketDataCache F × Result ParseError (AggTradesDay F)
  unfolding agg_or_read find
  load_agg files c path = agg_or_read c path (find path c.agg) (files.agg_csv path)

module _ {F : Type 0} ⦃f : Float F⦄ where
  -- The files as the two parsers read them.
  abbrev pub parsed_files : (Text → Option F) → (Text → Option ℤ) → (Text → Option Csv) → Files F
  parsed_files parse_f64 parse_date read_csv = record {
    lob_csv = strata_exec.Market.LobReplay.Parse.from_csv parse_f64 parse_date read_csv;
    agg_csv = strata_exec.Market.AggTrades.Rows.from_csv parse_f64 read_csv;
  }
