-- ===== src/Market/Regime.antt =====
-- src/market/regime.rs: the joint volatility and liquidity regime.
use Prim.Native.String.{String}
use strata_exec.Prelude.{if◌then◌else◌}
use strata_exec.Float.{Float, ◌⊗◌, ◌<?◌, lit}

pub data VolRegime : Type 0 where
  low : VolRegime
  normal : VolRegime
  high : VolRegime

pub data LiqRegime : Type 0 where
  deep : LiqRegime
  normal : LiqRegime
  thin : LiqRegime

pub record MarketRegime : Type 0 where
  pub vol : VolRegime
  pub liq : LiqRegime

unfoldable pub regime_label : VolRegime → LiqRegime → String
regime_label VolRegime.low LiqRegime.deep = "low-vol/deep"
regime_label VolRegime.low LiqRegime.normal = "low-vol/normal"
regime_label VolRegime.low LiqRegime.thin = "low-vol/thin"
regime_label VolRegime.normal LiqRegime.deep = "normal/deep"
regime_label VolRegime.normal LiqRegime.normal = "normal/normal"
regime_label VolRegime.normal LiqRegime.thin = "normal/thin"
regime_label VolRegime.high LiqRegime.deep = "high-vol/deep"
regime_label VolRegime.high LiqRegime.normal = "high-vol/normal"
regime_label VolRegime.high LiqRegime.thin = "high-vol/thin"

unfoldable pub label : MarketRegime → String
unfolding regime_label
label r = regime_label r.vol r.liq

module _ {F : Type 0} ⦃f : Float F⦄ where
  unfoldable pub classify : F → F → F → F → MarketRegime
  classify sigma sigma_ref half_spread spread_ref = record {
    vol =
        if sigma <? lit 6 1 ⊗ sigma_ref
        then VolRegime.low
        else if lit 14 1 ⊗ sigma_ref <? sigma
        then VolRegime.high
        else VolRegime.normal;
    liq =
        if half_spread <? lit 7 1 ⊗ spread_ref
        then LiqRegime.deep
        else if lit 13 1 ⊗ spread_ref <? half_spread
        then LiqRegime.thin
        else LiqRegime.normal;
  }
