-- ===== src/Strategies/Contract.antt =====
-- What the trait of src/strategies/trait_def.rs expects of a strategy that sells: the contract that
-- each strategy file fulfils.
use Prim.Native.String.{String}
use strata_exec.Prelude.{
  ℕ, ◌≡◌, refl, Bool, true, false, [], ◌∷◌, All, inl, inr, arith, Bool-cases, if◌then◌else◌,
}
use strata_exec.Float.{Float, ◌⊖◌, ◌<?◌, ◌≤?◌, lit, nought}
use strata_exec.Float.Laws.{IsRounding}
use strata_exec.Float.Order.{
  ◌≼◌, ◌≺◌, IsNonneg, nought_parts, lit_nonneg, lt→≺, not_le→≺, sub-le_self,
}
use strata_exec.Events.{Side, Order, SimEvent, market_sell, order_filled, partial_fill}
use strata_exec.Market.{MarketState}
use strata_exec.Engine.EventLoop.{Strategy}

module _ {F : Type 0} ⦃f : Float F⦄ ⦃r : IsRounding F⦄ where
  -- An event reports no negative quantity as filled.
  abbrev pub FillsForward : SimEvent F → Type 0
  FillsForward (order_filled _ qty _ _) = IsNonneg qty
  FillsForward (partial_fill _ filled _ _) = IsNonneg filled
  FillsForward _ = Unit

  -- A sale is over exactly when nothing is left, and more than 1e-8 is left otherwise.
  pub record IsSale (left : F) (over : Bool) : Type 0 where
    pub sold : over ≡ true → left ≡ nought
    pub unsold : over ≡ false → lit 1 8 ≺ left

  -- A market order to sell more than 1e-10 and at most what is left.
  abbrev pub IsOffer : F → Order F → Type 0
  IsOffer left o = (o.side ≡ Side.sell) × (lit 1 10 ≺ o.quantity) × (o.quantity ≼ left)

  pub sells-IsOffer :
      (left chunk : F) (id : ℕ) (name : String)
      → lit 1 10 <? chunk ≡ true
      → chunk ≼ left
      → All (IsOffer left) (market_sell id name chunk ∷ [])
  sells-IsOffer left chunk id name h le = ((refl, lt→≺ {F = F} (lit 1 10) chunk h, le), tt)

  -- The bookkeeping of a fill, which the strategies share.
  pub fill-IsSale :
      (left qty : F) (over : Bool)
      → IsNonneg qty
      → IsSale left over
      → let rest = left ⊖ qty in
        let done = rest ≤? lit 1 8 in
        IsSale (if done then nought else rest) (if done then true else over)
  fill-IsSale left qty over h i = elim (Bool-cases (left ⊖ qty ≤? lit 1 8)) [
    | inl e ↦ rw e (record { sold = λ _. refl; unsold = λ p. absurd (cc_false p) })
    | inr e ↦
        let more = not_le→≺ {F = F} (left ⊖ qty) (lit 1 8) e in
        rw e (record {
          sold = λ p. absurd (
              let none_left : left ≼ nought = rw (i.sold p) (omega arith) in
              omega
                (arith, none_left, more, nought_parts r, lit_nonneg r 1 8, sub-le_self left qty h));
          unsold = λ _. more;
        })
  ]
    where
      cc_false : ◌≡◌ {A = Bool} true false → ⊥
      cc_false p = cc

  -- The contract: a strategy keeps its sale in order, offers only what it still has, and is silent
  -- once it is complete.
  pub record IsSeller {S G : Type 0} (strategy : Strategy F S G) (left : S → F) : Type 0 where
    pub keeps :
        (g : G) (s : S) (e : SimEvent F) (m : MarketState F)
        → FillsForward e
        → IsSale (left s) (strategy.is_complete s)
        → let s' = (strategy.on_event g s e m).1 in IsSale (left s') (strategy.is_complete s')
    pub offers :
        (g : G) (s : S) (e : SimEvent F) (m : MarketState F)
        → IsSale (left s) (strategy.is_complete s)
        → All (IsOffer (left s)) (strategy.on_event g s e m).2
    pub silent :
        (g : G) (s : S) (e : SimEvent F) (m : MarketState F)
        → strategy.is_complete s ≡ true
        → (strategy.on_event g s e m).2 ≡ []
