-- ===== src/Market/Vpin.antt =====
-- src/market/vpin.rs: volume-synchronised order-flow imbalance over buckets of a fixed volume.
pub mod Buckets
pub mod Rounds
use strata_exec.Prelude.{
  ℕ, zero, suc, Bool, true, false, Option, none, some, List, [], ◌∷◌, ◌++◌, ltb, if◌then◌else◌,
  length,
}
use strata_exec.Float.{Float, ◌⊕◌, ◌⊖◌, ◌⊘◌, ◌<?◌, ◌≤?◌, lit, nought, fmin, fabs, fsum}

-- `last_direction`: +1, -1 and 0.
pub data Direction : Type 0 where
  buys sells unknown : Direction

pub record VpinCalculator (F : Type 0) : Type 0 where
  pub bucket_size : F
  pub window_buckets : ℕ
  pub buckets : List F
  pub current_buy_vol : F
  pub current_sell_vol : F
  pub current_total_vol : F
  pub last_direction : Direction

-- `VecDeque::pop_front` with the element dropped.
abbrev pub drop_first {ℓ} : {A : Type ℓ} → List A → List A
drop_first [] = []
drop_first (x ∷ xs) = xs

abbrev pub or_buy : Direction → Direction
or_buy unknown = buys
or_buy buys = buys
or_buy sells = sells

abbrev pub is_buy : Direction → Bool
is_buy buys = true
is_buy sells = false
is_buy unknown = false

module _ {F : Type 0} ⦃f : Float F⦄ where
  unfoldable pub new_vpin : F → ℕ → VpinCalculator F
  new_vpin bucket_size window_buckets = record {
    bucket_size = bucket_size;
    window_buckets = window_buckets;
    buckets = [];
    current_buy_vol = nought;
    current_sell_vol = nought;
    current_total_vol = nought;
    last_direction = unknown;
  }

  -- The tick rule.
  unfoldable pub tick_direction : Direction → F → F → Direction
  tick_direction last price prev_price =
      if prev_price <? price then buys else if price <? prev_price then sells else or_buy last

  unfoldable pub mean_imbalance : List F → F
  unfolding fsum
  mean_imbalance bs = fsum bs ⊘ f.of_usize (length bs)

  -- The volume of one round added to the bucket in progress.
  unfoldable pub pour : VpinCalculator F → Direction → F → VpinCalculator F
  pour c direction fill = record c {
    current_buy_vol = if is_buy direction then c.current_buy_vol ⊕ fill else c.current_buy_vol;
    current_sell_vol = if is_buy direction then c.current_sell_vol else c.current_sell_vol ⊕ fill;
    current_total_vol = c.current_total_vol ⊕ fill;
  }

  unfoldable pub imbalance : VpinCalculator F → F
  unfolding fabs
  imbalance c =
      if lit 1 15 <? c.current_total_vol
      then fabs (c.current_buy_vol ⊖ c.current_sell_vol) ⊘ c.current_total_vol
      else nought

  -- The bucket sealed: its imbalance joins the window, and the accumulators are reset.
  unfoldable pub seal : VpinCalculator F → VpinCalculator F
  unfolding imbalance
  seal c =
      let pushed = c.buckets ++ imbalance c ∷ [] in
      record c {
        buckets = if ltb c.window_buckets (length pushed) then drop_first pushed else pushed;
        current_buy_vol = nought;
        current_sell_vol = nought;
        current_total_vol = nought;
      }

  -- The `while` of `add_trade` with fuel; `none` where the fuel is used up.
  unfoldable pub fill_buckets :
      ℕ → VpinCalculator F → Direction → F → Option F → Option (VpinCalculator F × Option F)
  unfolding pour seal mean_imbalance
  fill_buckets zero c direction remaining result = none
  fill_buckets (suc fuel) c direction remaining result =
      let fill = fmin remaining (c.bucket_size ⊖ c.current_total_vol) in
      let poured = pour c direction fill in
      let full = c.bucket_size ⊖ lit 1 12 ≤? poured.current_total_vol in
      let next = if full then seal poured else poured in
      let rest =
        fill_buckets fuel next direction (remaining ⊖ fill)
          (if full then some (mean_imbalance next.buckets) else result) in
      if lit 1 15 <? remaining then rest else some (c, result)

  unfoldable pub add_trade : ℕ → VpinCalculator F → F → F → F → Option (VpinCalculator F × Option F)
  unfolding fill_buckets tick_direction
  add_trade fuel c price volume prev_price =
      let direction = tick_direction c.last_direction price prev_price in
      fill_buckets fuel (record c { last_direction = direction }) direction volume none

  unfoldable pub current_vpin : VpinCalculator F → Option F
  unfolding mean_imbalance
  current_vpin c = elim c.buckets [ [] ↦ none | b ∷ bs ↦ some (mean_imbalance c.buckets) ]

  unfoldable pub is_toxic : VpinCalculator F → F → Bool
  unfolding current_vpin
  is_toxic c threshold = elim (current_vpin c) [ none ↦ false | some v ↦ threshold <? v ]

  unfoldable pub calibrate_bucket_size : F → ℕ → F
  calibrate_bucket_size total_volume_btc target = total_volume_btc ⊘ f.of_usize target
