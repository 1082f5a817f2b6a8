-- ===== src/Strategies/Twap/Seller.antt =====
-- src/strategies/twap.rs: TWAP as a strategy of the event loop, and that it fulfils the contract.
use strata_exec.Prelude.{◌≡◌, refl, true, [], All, inl, inr, Bool-cases}
use strata_exec.Float.{Float, ◌<?◌, lit, fmin}
use strata_exec.Float.Laws.{IsRounding}
use strata_exec.Float.Order.{fmin-le_right}
use strata_exec.Events.{SimEvent, order_filled, partial_fill, time_tick}
use strata_exec.Market.{MarketState}
use strata_exec.Engine.EventLoop.{Strategy}
use strata_exec.Strategies.Ids.{OrderIds}
use strata_exec.Strategies.Contract.{
  FillsForward, IsSale, IsOffer, sells-IsOffer, fill-IsSale, IsSeller,
}
use strata_exec.Strategies.Twap.{TwapStrategy, take_fill, on_tick, on_event}

module _ {F : Type 0} ⦃f : Float F⦄ where
  abbrev pub twap_strategy : Strategy F (TwapStrategy F) OrderIds
  twap_strategy = record { name = λ s. "TWAP"; on_event = on_event; is_complete = λ s. s.completed }

module _ {F : Type 0} ⦃f : Float F⦄ ⦃r : IsRounding F⦄ where
  tick_keeps : (g : OrderIds) (s : TwapStrategy F) → (on_tick g s).1 ≡ s
  unfolding on_tick
  tick_keeps g s = elim (Bool-cases s.completed) [
    | inl e ↦ simp e refl
    | inr e ↦ elim (Bool-cases (lit 1 10 <? fmin s.qty_per_step s.remaining_notional)) [
      | inl h ↦ simp (e, h) refl
      | inr h ↦ simp (e, h) refl
    ]
  ]

  tick_offers :
      (g : OrderIds) (s : TwapStrategy F) → All (IsOffer s.remaining_notional) (on_tick g s).2
  unfolding on_tick
  tick_offers g s = elim (Bool-cases s.completed) [
    | inl e ↦ simp e tt
    | inr e ↦ elim (Bool-cases (lit 1 10 <? fmin s.qty_per_step s.remaining_notional)) [
      | inl h ↦
          simp (e, h)
            (sells-IsOffer s.remaining_notional (fmin s.qty_per_step s.remaining_notional) g.twap
              "TWAP" h (fmin-le_right s.qty_per_step s.remaining_notional))
      | inr h ↦ simp (e, h) tt
    ]
  ]

  tick_silent : (g : OrderIds) (s : TwapStrategy F) → s.completed ≡ true → (on_tick g s).2 ≡ []
  unfolding on_tick
  tick_silent g s e = simp e refl

  keeps :
      (g : OrderIds) (s : TwapStrategy F) (e : SimEvent F) (m : MarketState F)
      → FillsForward e
      → IsSale s.remaining_notional s.completed
      → let s' = (on_event g s e m).1 in IsSale s'.remaining_notional s'.completed
  unfolding on_event take_fill
  keeps g s (time_tick n) m h i = rw (tick_keeps g s) i
  keeps g s (order_filled _ qty _ _) m h i = fill-IsSale s.remaining_notional qty s.completed h i
  keeps g s (partial_fill _ qty _ _) m h i = fill-IsSale s.remaining_notional qty s.completed h i
  keeps g s _ m h i = i

  offers :
      (g : OrderIds) (s : TwapStrategy F) (e : SimEvent F) (m : MarketState F)
      → All (IsOffer s.remaining_notional) (on_event g s e m).2
  unfolding on_event
  offers g s (time_tick n) m = tick_offers g s
  offers g s (order_filled _ qty _ _) m = tt
  offers g s (partial_fill _ qty _ _) m = tt
  offers g s _ m = tt

  silent :
      (g : OrderIds) (s : TwapStrategy F) (e : SimEvent F) (m : MarketState F)
      → s.completed ≡ true
      → (on_event g s e m).2 ≡ []
  unfolding on_event
  silent g s (time_tick n) m h = tick_silent g s h
  silent g s (order_filled _ qty _ _) m h = refl
  silent g s (partial_fill _ qty _ _) m h = refl
  silent g s _ m h = refl

  -- TWAP fulfils the contract of a selling strategy: over every event that reports no negative fill
  -- it stays complete exactly when nothing is left; each order that it returns sells more than 1e-10
  -- and at most what is left; and it returns none once it is complete.
  pub twap_strategy-IsSeller : IsSeller {F = F} twap_strategy (λ s. s.remaining_notional)
  twap_strategy-IsSeller = record {
    keeps = keeps;
    offers = λ g s e m i. offers g s e m;
    silent = silent;
  }
