-- ===== src/Strategies/Heuristic/Seller.antt =====
-- src/strategies/heuristic.rs: the strategy in the event loop, and that it fulfils the contract.
use strata_exec.Prelude.{◌≡◌, refl, true, [], All, inl, inr, Bool-cases}
use strata_exec.Float.{Float, ◌<?◌, lit}
use strata_exec.Float.Laws.{IsRounding}
use strata_exec.Float.Order.{◌≼◌, fmin-le_right}
use strata_exec.Events.{SimEvent, order_filled, partial_fill, time_tick}
use strata_exec.Market.{MarketState, LiquiditySnapshot}
use strata_exec.Engine.EventLoop.{Strategy}
use strata_exec.Strategies.Ids.{OrderIds}
use strata_exec.Strategies.Contract.{
  FillsForward, IsSale, IsOffer, sells-IsOffer, fill-IsSale, IsSeller,
}
use strata_exec.Strategies.Heuristic.{
  HeuristicStrategy, compute_chunk, record_fill, on_tick, on_event,
}

module _ {F : Type 0} ⦃f : Float F⦄ where
  abbrev pub heuristic_strategy : Strategy F (HeuristicStrategy F) OrderIds
  heuristic_strategy = record {
    name = λ s. "Heuristic";
    on_event = on_event;
    is_complete = λ s. s.completed;
  }

module _ {F : Type 0} ⦃f : Float F⦄ ⦃r : IsRounding F⦄ where
  chunk_within :
      (s : HeuristicStrategy F) (v : F) (l : LiquiditySnapshot F) (left : F)
      → (compute_chunk s v l left).1 ≼ left
  unfolding compute_chunk
  chunk_within s v l left = fmin-le_right _ left

  tick_keeps :
      (g : OrderIds) (s : HeuristicStrategy F) (m : MarketState F)
      → IsSale s.remaining_notional s.completed
      → let s' = (on_tick g s m).1 in IsSale s'.remaining_notional s'.completed
  unfolding on_tick compute_chunk
  tick_keeps g s m i =
      let chunk = (compute_chunk s m.volatility m.liquidity s.remaining_notional).1 in
      elim (Bool-cases s.completed) [
        | inl e ↦ rw e (rw e at i)
        | inr e ↦ elim (Bool-cases (lit 1 10 <? chunk)) [
          | inl h ↦ rw (e, h) (rw e at i)
          | inr h ↦ rw (e, h) (rw e at i)
        ]
      ]

  tick_offers :
      (g : OrderIds) (s : HeuristicStrategy F) (m : MarketState F)
      → IsSale s.remaining_notional s.completed
      → All (IsOffer s.remaining_notional) (on_tick g s m).2
  unfolding on_tick
  tick_offers g s m i =
      let chunk = (compute_chunk s m.volatility m.liquidity s.remaining_notional).1 in
      elim (Bool-cases s.completed) [
        | inl e ↦ rw e tt
        | inr e ↦ elim (Bool-cases (lit 1 10 <? chunk)) [
          | inl h ↦
              rw (e, h)
                (sells-IsOffer s.remaining_notional chunk g.heuristic "Heuristic" h
                  (chunk_within s m.volatility m.liquidity s.remaining_notional))
          | inr h ↦ rw (e, h) tt
        ]
      ]

  tick_silent :
      (g : OrderIds) (s : HeuristicStrategy F) (m : MarketState F)
      → s.completed ≡ true
      → (on_tick g s m).2 ≡ []
  unfolding on_tick
  tick_silent g s m e = rw e refl

  keeps :
      (g : OrderIds) (s : HeuristicStrategy F) (e : SimEvent F) (m : MarketState F)
      → FillsForward e
      → IsSale s.remaining_notional s.completed
      → let s' = (on_event g s e m).1 in IsSale s'.remaining_notional s'.completed
  unfolding on_event record_fill
  keeps g s (time_tick n) m h i = tick_keeps g s m i
  keeps g s (order_filled _ qty _ _) m h i = fill-IsSale s.remaining_notional qty s.completed h i
  keeps g s (partial_fill _ qty _ _) m h i = fill-IsSale s.remaining_notional qty s.completed h i
  keeps g s _ m h i = i

  offers :
      (g : OrderIds) (s : HeuristicStrategy F) (e : SimEvent F) (m : MarketState F)
      → IsSale s.remaining_notional s.completed
      → All (IsOffer s.remaining_notional) (on_event g s e m).2
  unfolding on_event
  offers g s (time_tick n) m i = tick_offers g s m i
  offers g s (order_filled _ qty _ _) m i = tt
  offers g s (partial_fill _ qty _ _) m i = tt
  offers g s _ m i = tt

  silent :
      (g : OrderIds) (s : HeuristicStrategy F) (e : SimEvent F) (m : MarketState F)
      → s.completed ≡ true
      → (on_event g s e m).2 ≡ []
  unfolding on_event
  silent g s (time_tick n) m h = tick_silent g s m h
  silent g s (order_filled _ qty _ _) m h = refl
  silent g s (partial_fill _ qty _ _) m h = refl
  silent g s _ m h = refl

  -- The heuristic fulfils the contract of a selling strategy: over every event that reports no
  -- negative fill it stays complete exactly when nothing is left; each order that it returns sells
  -- more than 1e-10 and at most what is left; and it returns none once it is complete.
  pub heuristic_strategy-IsSeller : IsSeller {F = F} heuristic_strategy (λ s. s.remaining_notional)
  heuristic_strategy-IsSeller = record { keeps = keeps; offers = offers; silent = silent }
