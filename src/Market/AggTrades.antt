-- ===== src/Market/AggTrades.antt =====
-- src/market/agg_trades.rs: a day of aggregated trades, and the series aligned with the snapshots.
pub mod Rows
pub mod Windows
use strata_exec.Prelude.{
  ℕ, zero, suc, ◌+◌, ◌-◌, ◌^◌, Bool, true, false, ◌&&◌, not, Option, none, some, List, [], ◌∷◌,
  ◌++◌, map, length, get_elem?, ltb, leb, if◌then◌else◌,
}
use strata_exec.Float.{Float, ◌⊕◌, ◌⊖◌, ◌⊘◌, ◌<?◌, lit, nought, fsum}
use strata_exec.Market.OrderBook.{unwrap_or}
use strata_exec.Market.Vpin.{
  VpinCalculator, new_vpin, add_trade, current_vpin, calibrate_bucket_size,
}

pub record AggTrade (F : Type 0) : Type 0 where
  pub timestamp_ms : ℕ
  pub price : F
  pub quantity_btc : F
  pub is_sell_aggressor : Bool

pub record AggTradesDay (F : Type 0) : Type 0 where
  pub trades : List (AggTrade F)
  pub skipped_rows : ℕ

-- The volume of the buys and of the sells of a window.
pub record Volumes (F : Type 0) : Type 0 where
  pub buy : F
  pub sell : F

-- `partition_point(|t| t.timestamp_ms < ms)` of trades in the order of their time stamps: the number
-- of trades in front that are earlier. Of other trades the binary search promises nothing.
unfoldable pub partition_point : {F : Type 0} → ℕ → List (AggTrade F) → ℕ
partition_point ms [] = 0
partition_point ms (t ∷ ts) =
    let rest = partition_point ms ts in if ltb t.timestamp_ms ms then suc rest else 0

abbrev pub drop {ℓ} : {A : Type ℓ} → ℕ → List A → List A
drop zero xs = xs
drop (suc n) [] = []
drop (suc n) (x ∷ xs) = drop n xs

abbrev pub take {ℓ} : {A : Type ℓ} → ℕ → List A → List A
take zero xs = []
take (suc n) [] = []
take (suc n) (x ∷ xs) = x ∷ take n xs

-- `&trades[left..right]`
abbrev pub slice {ℓ} : {A : Type ℓ} → ℕ → ℕ → List A → List A
slice left right xs = drop left (take right xs)

-- The end of a window: the next time stamp, `u64::MAX` after the last.
abbrev pub window_end : List ℕ → ℕ
window_end [] = 2 ^ 64 - 1
window_end (t ∷ stamps) = t

module _ {F : Type 0} ⦃f : Float F⦄ where
  abbrev pub no_volume : Volumes F
  no_volume = record { buy = nought; sell = nought }

  unfoldable pub add_volume : Volumes F → AggTrade F → Volumes F
  add_volume v t =
      if t.is_sell_aggressor
      then record v { sell = v.sell ⊕ t.quantity_btc }
      else record v { buy = v.buy ⊕ t.quantity_btc }

  unfoldable pub add_volumes : Volumes F → List (AggTrade F) → Volumes F
  add_volumes v [] = v
  add_volumes v (t ∷ ts) = add_volumes (add_volume v t) ts

  unfoldable pub total_volume_btc : AggTradesDay F → F
  unfolding fsum
  total_volume_btc d = fsum (map (λ t. t.quantity_btc) d.trades)

  unfoldable pub calibrated_bucket_size : AggTradesDay F → ℕ → F
  unfolding total_volume_btc calibrate_bucket_size
  calibrated_bucket_size d target_buckets =
      calibrate_bucket_size (total_volume_btc d) target_buckets

  -- The scan of `volume_in_window`, which a trade at or after the end stops.
  unfoldable pub scan : ℕ → ℕ → Volumes F → List (AggTrade F) → Volumes F
  unfolding add_volume
  scan start_ms end_ms v [] = v
  scan start_ms end_ms v (t ∷ ts) =
      let inside = scan start_ms end_ms (add_volume v t) ts in
      let outside = scan start_ms end_ms v ts in
      if leb start_ms t.timestamp_ms && ltb t.timestamp_ms end_ms
      then inside
      else if leb end_ms t.timestamp_ms
      then v
      else outside

  unfoldable pub volume_in_window : AggTradesDay F → ℕ → ℕ → Volumes F
  unfolding scan
  volume_in_window d start_ms end_ms = scan start_ms end_ms no_volume d.trades

  -- The volumes of `trades[left..right]`, its ends found by binary search.
  unfoldable pub window_volumes : AggTradesDay F → ℕ → ℕ → Volumes F
  unfolding partition_point add_volumes
  window_volumes d start_ms end_ms =
      add_volumes no_volume
        (slice (partition_point start_ms d.trades) (partition_point end_ms d.trades) d.trades)

  unfoldable pub imbalance_of : Volumes F → F
  imbalance_of v =
      if v.buy ⊕ v.sell <? lit 1 12 then nought else (v.buy ⊖ v.sell) ⊘ (v.buy ⊕ v.sell)

  unfoldable pub build_ofi_series : AggTradesDay F → List ℕ → ℕ → List F
  unfolding imbalance_of window_volumes
  build_ofi_series d [] window_ms = []
  build_ofi_series d (end_ms ∷ stamps) window_ms =
      imbalance_of (window_volumes d (end_ms - window_ms) end_ms)
      ∷ build_ofi_series d stamps window_ms

  unfoldable pub window_total : AggTradesDay F → ℕ → ℕ → F
  unfolding partition_point fsum
  window_total d start_ms end_ms = fsum (
      map (λ t. t.quantity_btc)
        (slice (partition_point start_ms d.trades) (partition_point end_ms d.trades) d.trades))

  -- The intervals that end at each of the time stamps, of which the first begins at `start_ms`.
  unfoldable pub interval_totals : AggTradesDay F → ℕ → List ℕ → List F
  unfolding window_total
  interval_totals d start_ms [] = []
  interval_totals d start_ms (end_ms ∷ stamps) =
      window_total d start_ms end_ms ∷ interval_totals d end_ms stamps

  unfoldable pub build_volume_series : AggTradesDay F → List ℕ → List F
  unfolding interval_totals
  build_volume_series d [] = []
  build_volume_series d (t0 ∷ []) = interval_totals d t0 (t0 ∷ [])
  build_volume_series d (t0 ∷ t1 ∷ stamps) = interval_totals d (t0 - (t1 - t0)) (t0 ∷ t1 ∷ stamps)

  -- The cursor past the trades before `t_start`.
  unfoldable pub skip_before : ℕ → List (AggTrade F) → List (AggTrade F)
  skip_before t_start [] = []
  skip_before t_start (t ∷ ts) =
      let rest = skip_before t_start ts in if ltb t.timestamp_ms t_start then rest else t ∷ ts

  -- The volumes up to `t_end`, and the trades from the cursor on.
  unfoldable pub gather : ℕ → Volumes F → List (AggTrade F) → Volumes F × List (AggTrade F)
  unfolding add_volume
  gather t_end v [] = (v, [])
  gather t_end v (t ∷ ts) =
      let rest = gather t_end (add_volume v t) ts in
      if ltb t.timestamp_ms t_end then rest else (v, t ∷ ts)

  -- A volume fed to the calculator as one trade; `none` where the fuel of its loop is used up.
  unfoldable pub feed : ℕ → F → F → F → Option (VpinCalculator F) → Option (VpinCalculator F)
  unfolding add_trade
  feed fuel price prev_price volume none = none
  feed fuel price prev_price volume (some calc) =
      if lit 1 12 <? volume
      then elim (add_trade fuel calc price volume prev_price) [
        | none ↦ none
        | some done ↦ some done.0
      ]
      else some calc

  -- The loop over the time stamps, with the trades from the cursor on.
  unfoldable pub vpin_loop : ℕ → List ℕ → List (AggTrade F) → VpinCalculator F → Option (List F)
  unfolding skip_before gather feed current_vpin
  vpin_loop fuel [] trades calc = some []
  vpin_loop fuel (t_start ∷ stamps) trades calc =
      let gathered = gather (window_end stamps) no_volume (skip_before t_start trades) in
      let bought = feed fuel (lit 101 0) (lit 100 0) gathered.0.buy (some calc) in
      elim (feed fuel (lit 99 0) (lit 101 0) gathered.0.sell bought) [
        | none ↦ none
        | some fed ↦ elim (vpin_loop fuel stamps gathered.1 fed) [
          | none ↦ none
          | some series ↦ some (unwrap_or (current_vpin fed) nought ∷ series)
        ]
      ]

  unfoldable pub build_vpin_series : ℕ → AggTradesDay F → List ℕ → F → ℕ → Option (List F)
  unfolding vpin_loop new_vpin
  build_vpin_series fuel d stamps bucket_size_btc window_buckets =
      vpin_loop fuel stamps d.trades (new_vpin bucket_size_btc window_buckets)
