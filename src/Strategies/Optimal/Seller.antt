-- ===== src/Strategies/Optimal/Seller.antt =====
-- src/strategies/optimal.rs: the strategy in the event loop, and that it fulfils the contract.
use strata_exec.Prelude.{
  ◌≡◌, refl, true, false, Option, none, some, get_elem?, List, [], All, inl, inr, Bool-cases,
}
use strata_exec.Float.{Float, ◌<?◌, lit, fmin}
use strata_exec.Float.Laws.{IsRounding}
use strata_exec.Float.Order.{fmin-le_right}
use strata_exec.Events.{SimEvent, order_filled, partial_fill, time_tick}
use strata_exec.Market.{MarketState}
use strata_exec.Engine.EventLoop.{Strategy}
use strata_exec.Strategies.Ids.{OrderIds}
use strata_exec.Strategies.Contract.{
  FillsForward, IsSale, IsOffer, sells-IsOffer, fill-IsSale, IsSeller,
}
use strata_exec.Strategies.Optimal.{
  OptimalStrategy, ensure_schedule, submit, follow, record_fill, on_tick, on_event,
}

module _ {F : Type 0} ⦃f : Float F⦄ where
  abbrev pub optimal_strategy : Strategy F (OptimalStrategy F) OrderIds
  optimal_strategy = record {
    name = λ s. "Optimal";
    on_event = on_event;
    is_complete = λ s. s.completed;
  }

module _ {F : Type 0} ⦃f : Float F⦄ ⦃r : IsRounding F⦄ where
  submit_keeps :
      (g : OrderIds) (s : OptimalStrategy F) (o : Option F)
      → IsSale s.remaining_notional s.completed
      → let s' = (submit g s o).1 in IsSale s'.remaining_notional s'.completed
  unfolding submit
  submit_keeps g s none i = record { sold = λ _. refl; unsold = λ p. cc }
  submit_keeps g s (some trade) i =
      elim (Bool-cases (lit 1 10 <? fmin trade s.remaining_notional)) [
        | inl h ↦ rw h i
        | inr h ↦ rw h i
      ]

  submit_offers :
      (g : OrderIds) (s : OptimalStrategy F) (o : Option F)
      → All (IsOffer s.remaining_notional) (submit g s o).2
  unfolding submit
  submit_offers g s none = tt
  submit_offers g s (some trade) =
      let chunk = fmin trade s.remaining_notional in
      elim (Bool-cases (lit 1 10 <? chunk)) [
        | inl h ↦ rw h (
            sells-IsOffer s.remaining_notional chunk g.optimal "Optimal" h
              (fmin-le_right trade s.remaining_notional))
        | inr h ↦ rw h tt
      ]

  follow_keeps :
      (g : OrderIds) (s : OptimalStrategy F) (o : Option (List F))
      → IsSale s.remaining_notional s.completed
      → let s' = (follow g s o).1 in IsSale s'.remaining_notional s'.completed
  unfolding follow
  follow_keeps g s none i = i
  follow_keeps g s (some trades) i = submit_keeps g s (get_elem? trades s.current_step) i

  follow_offers :
      (g : OrderIds) (s : OptimalStrategy F) (o : Option (List F))
      → All (IsOffer s.remaining_notional) (follow g s o).2
  unfolding follow
  follow_offers g s none = tt
  follow_offers g s (some trades) = submit_offers g s (get_elem? trades s.current_step)

  ensured_sale :
      (s : OptimalStrategy F) (v : F)
      → ((ensure_schedule s v).remaining_notional ≡ s.remaining_notional)
        × ((ensure_schedule s v).completed ≡ s.completed)
  unfolding ensure_schedule
  ensured_sale s v = (refl, refl)

  pub tick_open :
      (g : OrderIds) (s : OptimalStrategy F) (m : MarketState F)
      → s.completed ≡ false
      → let s' = ensure_schedule s m.volatility in on_tick g s m ≡ follow g s' s'.schedule
  unfolding on_tick
  tick_open g s m e = simp e

  pub tick_closed :
      (g : OrderIds) (s : OptimalStrategy F) (m : MarketState F)
      → s.completed ≡ true
      → on_tick g s m ≡ (g, s, [])
  unfolding on_tick
  tick_closed g s m e = simp e

  tick_keeps :
      (g : OrderIds) (s : OptimalStrategy F) (m : MarketState F)
      → IsSale s.remaining_notional s.completed
      → let s' = (on_tick g s m).1 in IsSale s'.remaining_notional s'.completed
  tick_keeps g s m i =
      let s' = ensure_schedule s m.volatility in
      elim (Bool-cases s.completed) [
        | inl e ↦ rw (tick_closed g s m e) i
        | inr e ↦
            let (a, b) = ensured_sale s m.volatility in
            rw (tick_open g s m e) (follow_keeps g s' s'.schedule (rw (a, b) i))
      ]

  tick_offers :
      (g : OrderIds) (s : OptimalStrategy F) (m : MarketState F)
      → All (IsOffer s.remaining_notional) (on_tick g s m).2
  tick_offers g s m =
      let s' = ensure_schedule s m.volatility in
      elim (Bool-cases s.completed) [
        | inl e ↦ rw (tick_closed g s m e) tt
        | inr e ↦ rw (tick_open g s m e) (unfold ensure_schedule in follow_offers g s' s'.schedule)
      ]

  tick_silent :
      (g : OrderIds) (s : OptimalStrategy F) (m : MarketState F)
      → s.completed ≡ true
      → (on_tick g s m).2 ≡ []
  tick_silent g s m e = rw (tick_closed g s m e) refl

  keeps :
      (g : OrderIds) (s : OptimalStrategy F) (e : SimEvent F) (m : MarketState F)
      → FillsForward e
      → IsSale s.remaining_notional s.completed
      → let s' = (on_event g s e m).1 in IsSale s'.remaining_notional s'.completed
  unfolding on_event record_fill
  keeps g s (time_tick n) m h i = tick_keeps g s m i
  keeps g s (order_filled _ qty _ _) m h i = fill-IsSale s.remaining_notional qty s.completed h i
  keeps g s (partial_fill _ qty _ _) m h i = fill-IsSale s.remaining_notional qty s.completed h i
  keeps g s _ m h i = i

  offers :
      (g : OrderIds) (s : OptimalStrategy F) (e : SimEvent F) (m : MarketState F)
      → IsSale s.remaining_notional s.completed
      → All (IsOffer s.remaining_notional) (on_event g s e m).2
  unfolding on_event
  offers g s (time_tick n) m i = tick_offers g s m
  offers g s (order_filled _ qty _ _) m i = tt
  offers g s (partial_fill _ qty _ _) m i = tt
  offers g s _ m i = tt

  silent :
      (g : OrderIds) (s : OptimalStrategy F) (e : SimEvent F) (m : MarketState F)
      → s.completed ≡ true
      → (on_event g s e m).2 ≡ []
  unfolding on_event
  silent g s (time_tick n) m h = tick_silent g s m h
  silent g s (order_filled _ qty _ _) m h = refl
  silent g s (partial_fill _ qty _ _) m h = refl
  silent g s _ m h = refl

  -- The contract, where what is left is `remaining_notional`, the strategy's own account of it.
  pub optimal_strategy-IsSeller : IsSeller {F = F} optimal_strategy (λ s. s.remaining_notional)
  optimal_strategy-IsSeller = record { keeps = keeps; offers = offers; silent = silent }
