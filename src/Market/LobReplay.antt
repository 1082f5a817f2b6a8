-- ===== src/Market/LobReplay.antt =====
-- src/market/lob_replay.rs: recorded snapshots of the order book, replayed one per step.
pub mod Cells
pub mod Parse
pub mod Drain
use strata_exec.Prelude.{
  ℕ, suc, ◌-◌, Bool, true, false, Option, none, some, List, [], ◌∷◌, ◌++◌, map, length, get_elem?,
  leb, if◌then◌else◌, ◌&&◌,
}
use strata_exec.Float.{Float, ◌⊕◌, ◌⊖◌, ◌<?◌, lit, nought, fabs, fsum}
use strata_exec.Market.OrderBook.{PriceLevel, OrderBook, new_book, mid_price, quantities, unwrap_or}
use strata_exec.Market.Vpin.{VpinCalculator, new_vpin, add_trade}

pub record LobSnapshot (F : Type 0) : Type 0 where
  pub timestamp : ℕ
  pub bids : List (PriceLevel F)
  pub asks : List (PriceLevel F)

pub record LobReplay (F : Type 0) : Type 0 where
  pub snapshots : List (LobSnapshot F)
  pub cursor : ℕ

abbrev pub is_nil {ℓ} : {A : Type ℓ} → List A → Bool
is_nil [] = true
is_nil (x ∷ xs) = false

abbrev pub min : ℕ → ℕ → ℕ
min a b = if leb a b then a else b

module _ {F : Type 0} where
  unfoldable pub to_order_book : LobSnapshot F → OrderBook F
  to_order_book s = record (new_book s.asks s.bids) { timestamp = s.timestamp }

  unfoldable pub from_arc : List (LobSnapshot F) → LobReplay F
  from_arc snapshots = record { snapshots = snapshots; cursor = 0 }

  -- The snapshot read at the cursor, `none` where the cursor is past the end.
  unfoldable pub advance : LobReplay F → Option (LobSnapshot F) → Option (OrderBook F) × LobReplay F
  unfolding to_order_book
  advance r none = (none, r)
  advance r (some s) = (some (to_order_book s), record r { cursor = suc r.cursor })

  unfoldable pub next_snapshot : LobReplay F → Option (OrderBook F) × LobReplay F
  unfolding advance
  next_snapshot r = advance r (get_elem? r.snapshots r.cursor)

  unfoldable pub reset : LobReplay F → LobReplay F
  reset r = record r { cursor = 0 }

  unfoldable pub seek : LobReplay F → ℕ → LobReplay F
  seek r offset = record r {
    cursor = if is_nil r.snapshots then 0 else min offset (length r.snapshots - 1);
  }

  unfoldable pub len : LobReplay F → ℕ
  len r = length r.snapshots

  unfoldable pub is_empty : LobReplay F → Bool
  is_empty r = is_nil r.snapshots

  unfoldable pub snapshot_timestamps : LobReplay F → List ℕ
  snapshot_timestamps r = map (λ s. s.timestamp) r.snapshots

module _ {F : Type 0} ⦃f : Float F⦄ where
  unfoldable pub snapshot_mid : LobSnapshot F → F
  unfolding mid_price to_order_book
  snapshot_mid s = unwrap_or (mid_price (to_order_book s)) nought

  unfoldable pub snapshot_depth : LobSnapshot F → F
  unfolding fsum
  snapshot_depth s = fsum (quantities s.bids) ⊕ fsum (quantities s.asks)

  -- One round of the loop of `compute_vpin_series`, where `fuel` bounds the buckets that a trade fills.
  unfoldable pub observe :
      ℕ → VpinCalculator F → LobSnapshot F → LobSnapshot F → Option (VpinCalculator F × Option F)
  unfolding add_trade snapshot_mid snapshot_depth fabs
  observe fuel calc prev curr =
      let volume_proxy = fabs (snapshot_depth curr ⊖ snapshot_depth prev) in
      if (lit 1 12 <? volume_proxy) && (lit 1 15 <? snapshot_mid prev)
      then add_trade fuel calc (snapshot_mid curr) volume_proxy (snapshot_mid prev)
      else some (calc, none)

  abbrev pub report : ℕ → Option F → List (ℕ × F) → List (ℕ × F)
  report t none rest = rest
  report t (some v) rest = (t, v) ∷ rest

  -- The loop from the snapshot `prev`; `none` where the fuel of a trade is used up.
  unfoldable pub observe_all :
      ℕ → VpinCalculator F → LobSnapshot F → List (LobSnapshot F) → Option (List (ℕ × F))
  unfolding observe
  observe_all fuel calc prev [] = some []
  observe_all fuel calc prev (curr ∷ rest) = elim (observe fuel calc prev curr) [
    | none ↦ none
    | some seen ↦ elim (observe_all fuel seen.0 curr rest) [
      | none ↦ none
      | some results ↦ some (report curr.timestamp seen.1 results)
    ]
  ]

  unfoldable pub series_from : ℕ → VpinCalculator F → List (LobSnapshot F) → Option (List (ℕ × F))
  unfolding observe_all
  series_from fuel calc [] = some []
  series_from fuel calc (first ∷ rest) = observe_all fuel calc first rest

  unfoldable pub compute_vpin_series : ℕ → LobReplay F → F → ℕ → Option (List (ℕ × F))
  unfolding series_from new_vpin
  compute_vpin_series fuel r bucket_size window_buckets =
      series_from fuel (new_vpin bucket_size window_buckets) r.snapshots
