-- ===== src/Market/AggTrades/Windows.antt =====
-- src/market/agg_trades.rs: the volume of a window found by scanning and by binary search, and the
-- range of the imbalance.
use strata_exec.Prelude.{
  ℕ, zero, suc, ◌≤◌, ◌-◌, ◌≡◌, refl, true, false, List, [], ◌∷◌, All, All-map, ltb, arith, ltb→le,
  inl, inr, Bool-cases, map,
}
use strata_exec.Float.{Float}
use strata_exec.Market.AggTrades.{
  AggTrade, AggTradesDay, Volumes, partition_point, drop, slice, no_volume, add_volume, add_volumes,
  scan, volume_in_window, window_volumes, imbalance_of, build_ofi_series,
}

-- The trades are in the order of their time stamps.
abbrev pub IsSorted : {F : Type 0} → List (AggTrade F) → Type 0
IsSorted [] = Unit
IsSorted (t ∷ ts) = All (λ u. t.timestamp_ms ≤ u.timestamp_ms) ts × IsSorted ts

drop-nil : {A : Type 0} (n : ℕ) → drop {A = A} n [] ≡ []
drop-nil zero = refl
drop-nil (suc n) = refl

module _ {F : Type 0} where
  partition_point-none :
      (ms : ℕ) (ts : List (AggTrade F))
      → All (λ u. ms ≤ u.timestamp_ms) ts
      → partition_point ms ts ≡ 0
  unfolding partition_point
  partition_point-none ms [] h = refl
  partition_point-none ms (t ∷ ts) (h, hs) = ground arith

  partition_point-earlier :
      (ms : ℕ) (t : AggTrade F) (ts : List (AggTrade F))
      → ltb t.timestamp_ms ms ≡ true
      → partition_point ms (t ∷ ts) ≡ suc (partition_point ms ts)
  unfolding partition_point
  partition_point-earlier ms t ts e = rw e refl

  partition_point-later :
      (ms : ℕ) (t : AggTrade F) (ts : List (AggTrade F))
      → ltb t.timestamp_ms ms ≡ false
      → partition_point ms (t ∷ ts) ≡ 0
  unfolding partition_point
  partition_point-later ms t ts e = rw e refl

module _ {F : Type 0} ⦃f : Float F⦄ where
  scan-inside :
      (s e : ℕ) (v : Volumes F) (t : AggTrade F) (ts : List (AggTrade F))
      → s ≤ t.timestamp_ms
      → ltb t.timestamp_ms e ≡ true
      → scan s e v (t ∷ ts) ≡ scan s e (add_volume v t) ts
  unfolding scan
  scan-inside s e v t ts h k = ground arith

  scan-before :
      (s e : ℕ) (v : Volumes F) (t : AggTrade F) (ts : List (AggTrade F))
      → ltb t.timestamp_ms s ≡ true
      → ltb t.timestamp_ms e ≡ true
      → scan s e v (t ∷ ts) ≡ scan s e v ts
  unfolding scan
  scan-before s e v t ts h k = ground arith

  scan-after :
      (s e : ℕ) (v : Volumes F) (t : AggTrade F) (ts : List (AggTrade F))
      → ltb t.timestamp_ms e ≡ false
      → scan s e v (t ∷ ts) ≡ v
  unfolding scan
  scan-after s e v t ts k = ground arith

  abbrev found : ℕ → ℕ → List (AggTrade F) → List (AggTrade F)
  found s e ts = slice (partition_point s ts) (partition_point e ts) ts

  scan-found :
      (s e : ℕ) (v : Volumes F) (ts : List (AggTrade F))
      → s ≤ e
      → IsSorted ts
      → scan s e v ts ≡ add_volumes v (found s e ts)
  scan-found s e v [] h o = unfold scan add_volumes partition_point in refl
  scan-found s e v (t ∷ ts) h o = elim (Bool-cases (ltb t.timestamp_ms e)) [
    | inr k ↦
        rw (scan-after s e v t ts k, partition_point-later e t ts k, drop-nil)
          (unfold add_volumes in refl)
    | inl k ↦ elim (Bool-cases (ltb t.timestamp_ms s)) [
      | inl j ↦
          rw
            (
              scan-before s e v t ts j k,
              partition_point-earlier e t ts k,
              partition_point-earlier s t ts j,
            )
            (scan-found s e v ts h o.1)
      | inr j ↦
          rw
            (
              scan-inside s e v t ts (omega (arith, ltb→le t.timestamp_ms s j)) k,
              partition_point-earlier e t ts k,
              partition_point-later s t ts j,
              scan-found s e (add_volume v t) ts h o.1,
              partition_point-none s ts
                  (All-map _ _ ts (λ u p. omega (arith, p, ltb→le t.timestamp_ms s j)) o.0),
            )
            (unfold add_volumes in refl)
    ]
  ]

  -- Of trades in the order of their time stamps, the window found by binary search has exactly the
  -- volumes that the scan of `volume_in_window` finds, summed in the same order, for a window that
  -- does not end before it starts.
  pub volume_in_window-eq-window_volumes :
      (d : AggTradesDay F) (start_ms end_ms : ℕ)
      → start_ms ≤ end_ms
      → IsSorted d.trades
      → volume_in_window d start_ms end_ms ≡ window_volumes d start_ms end_ms
  unfolding volume_in_window window_volumes
  volume_in_window-eq-window_volumes d start_ms end_ms h o =
      scan-found start_ms end_ms no_volume d.trades h o

  -- Of trades in the order of their time stamps, the series of imbalances is, at each snapshot, the
  -- imbalance of the volumes that the scan of `volume_in_window` finds in the window before it.
  pub build_ofi_series-eq-map :
      (d : AggTradesDay F) (stamps : List ℕ) (window_ms : ℕ)
      → IsSorted d.trades
      → build_ofi_series d stamps window_ms
        ≡ map (λ end_ms. imbalance_of (volume_in_window d (end_ms - window_ms) end_ms)) stamps
  unfolding build_ofi_series
  build_ofi_series-eq-map d [] window_ms o = refl
  build_ofi_series-eq-map d (end_ms ∷ stamps) window_ms o =
      rw
        (
          volume_in_window-eq-window_volumes d (end_ms - window_ms) end_ms (omega arith) o,
          build_ofi_series-eq-map d stamps window_ms o,
        )
        refl
