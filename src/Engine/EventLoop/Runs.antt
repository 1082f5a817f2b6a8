-- ===== src/Engine/EventLoop/Runs.antt =====
-- The runs of the loop of src/engine/event_loop.rs as a relation, and the order of their events.
use strata_exec.Prelude.{
  ℕ, zero, suc, ◌+◌, ◌≡◌, refl, true, false, none, some, List, [], ◌∷◌, length, All-map, inl, inr,
  arith, Bool-cases, Option-cases, if◌then◌else◌,
}
use strata_exec.Float.{Float}
use strata_exec.Float.Laws.{IsRounding}
use strata_exec.Float.Order.{◌≼◌}
use strata_exec.Events.Queue.{EventQueue, TimestampedEvent, pop}
use strata_exec.Events.Queue.Order.{pop_first}
use strata_exec.Events.Queue.Drain.{pop-All}
use strata_exec.Engine.EventLoop.{Strategy, DesSimulator, is_simulation_end, dispatch, run}
use strata_exec.Engine.EventLoop.Clock.{IsAhead, dispatch-IsAhead}

module _ {F : Type 0} ⦃f : Float F⦄ {S G : Type 0} where
  abbrev pub popped : DesSimulator F S G → EventQueue F → DesSimulator F S G
  popped sim q = record sim { queue = q }

module _ {F : Type 0} ⦃f : Float F⦄ ⦃r : IsRounding F⦄ where
  -- The times ascend from `now` on.
  abbrev pub IsAscending : F → List (TimestampedEvent F) → Type 0
  IsAscending now [] = Unit
  IsAscending now (e ∷ es) = (now ≼ e.time) × IsAscending e.time es

-- From the first simulator the loop processes these events, none of which ends the simulation, and
-- reaches the second.
pub data Runs {F : Type 0} ⦃f : Float F⦄ {S G : Type 0} (strategy : Strategy F S G)
    : DesSimulator F S G → List (TimestampedEvent F) → DesSimulator F S G → Type 0 where
  here : {s : DesSimulator F S G} → Runs strategy s [] s
  next :
      {s t : DesSimulator F S G} {es : List (TimestampedEvent F)}
      (p : TimestampedEvent F × EventQueue F)
      → pop s.queue ≡ some p
      → is_simulation_end p.0.event ≡ false
      → Runs strategy (dispatch strategy (popped s p.1) p.0) es t
      → Runs strategy s (p.0 ∷ es) t

module _ {F : Type 0} ⦃f : Float F⦄ {S G : Type 0} (strategy : Strategy F S G) where
  -- How `run` may stop after the events `es`: with an empty queue, or by taking out the event that
  -- ends the simulation, which is counted and not dispatched.
  pub data Stops (sim : DesSimulator F S G) (n k : ℕ) (t : DesSimulator F S G) : Type 0 where
    exhausted :
        (es : List (TimestampedEvent F))
        → Runs strategy sim es t
        → pop t.queue ≡ none
        → k ≡ n + length es
        → Stops sim n k t
    ended :
        (es : List (TimestampedEvent F)) (s : DesSimulator F S G)
        (p : TimestampedEvent F × EventQueue F)
        → Runs strategy sim es s
        → pop s.queue ≡ some p
        → is_simulation_end p.0.event ≡ true
        → t ≡ popped s p.1
        → k ≡ n + length es + 1
        → Stops sim n k t

  Stops-after :
      {n k : ℕ} {sim t : DesSimulator F S G} (p : TimestampedEvent F × EventQueue F)
      → pop sim.queue ≡ some p
      → is_simulation_end p.0.event ≡ false
      → Stops (dispatch strategy (popped sim p.1) p.0) (n + 1) k t
      → Stops sim n k t
  Stops-after p e more (exhausted es runs empty count) =
      exhausted (p.0 ∷ es) (next p e more runs) empty (omega arith)
  Stops-after p e more (ended es s p' runs e' last same count) =
      ended (p.0 ∷ es) s p' (next p e more runs) e' last same (omega arith)

  run-none :
      (fuel n : ℕ) (sim : DesSimulator F S G)
      → pop sim.queue ≡ none
      → run strategy (suc fuel) n sim ≡ some (n, sim)
  unfolding run
  run-none fuel n sim e = rw (e, run) refl

  run-some :
      (fuel n : ℕ) (sim : DesSimulator F S G) (p : TimestampedEvent F × EventQueue F)
      → pop sim.queue ≡ some p
      → run strategy (suc fuel) n sim ≡ (
          let rest = run strategy fuel (n + 1) (dispatch strategy (popped sim p.1) p.0) in
          if is_simulation_end p.0.event then some (n + 1, popped sim p.1) else rest)
  unfolding run
  run-some fuel n sim p e = rw (e, run) refl

  -- What comes of `fuel` rounds: the loop stopped, or it is still running after that many events.
  pub data Outcome (fuel n : ℕ) (sim : DesSimulator F S G) : Type 0 where
    stopped :
        (k : ℕ) (t : DesSimulator F S G)
        → run strategy fuel n sim ≡ some (k, t)
        → Stops sim n k t
        → Outcome fuel n sim
    running :
        (es : List (TimestampedEvent F)) (t : DesSimulator F S G)
        → run strategy fuel n sim ≡ none
        → Runs strategy sim es t
        → length es ≡ fuel
        → Outcome fuel n sim

  Outcome-after :
      {fuel n : ℕ} {sim : DesSimulator F S G} (p : TimestampedEvent F × EventQueue F)
      → pop sim.queue ≡ some p
      → is_simulation_end p.0.event ≡ false
      → Outcome fuel (n + 1) (dispatch strategy (popped sim p.1) p.0)
      → Outcome (suc fuel) n sim
  Outcome-after {fuel} {n} {sim} p e more (stopped k t h stops) =
      stopped k t (rw (run-some fuel n sim p e, more) h) (Stops-after p e more stops)
  Outcome-after {fuel} {n} {sim} p e more (running es t h runs l) =
      running (p.0 ∷ es) t (rw (run-some fuel n sim p e, more) h) (next p e more runs) (omega arith)

  -- For every amount of fuel, either the loop stops, with the queue empty or on the event that ends
  -- the simulation, and returns the number of events that it took from the queue; or there is a run
  -- of the loop of as many events as there was fuel.
  pub run-Outcome : (fuel n : ℕ) (sim : DesSimulator F S G) → Outcome fuel n sim
  run-Outcome zero n sim = running [] sim (unfold run in refl) here refl
  run-Outcome (suc fuel) n sim = elim (Option-cases (pop sim.queue)) [
    | inl e ↦ stopped n sim (run-none fuel n sim e) (exhausted [] here e (omega arith))
    | inr (p, e) ↦ elim (Bool-cases (is_simulation_end p.0.event)) [
      | inl last ↦
          stopped (n + 1) (popped sim p.1) (rw (run-some fuel n sim p e, last) refl)
            (ended [] sim p here e last refl (omega arith))
      | inr more ↦
          Outcome-after p e more (run-Outcome fuel (n + 1) (dispatch strategy (popped sim p.1) p.0))
    ]
  ]

  module _ ⦃r : IsRounding F⦄ where
    popped-IsAhead :
        (now : F) (q : EventQueue F) (p : TimestampedEvent F × EventQueue F)
        → IsAhead now q
        → pop q ≡ some p
        → (now ≼ p.0.time) × IsAhead p.0.time p.1
    popped-IsAhead now q p a e =
        let (perm, first, valid, _) = pop_first q a.valid e in
        (
          (pop-All (λ x. now ≼ x.time) q a.ahead e).0,
          record { valid = valid; ahead = All-map _ _ p.1.heap (λ x b. omega arith) first },
        )

    -- The loop processes events in the order of simulation time, whatever the strategies and the
    -- engine schedule on the way.
    pub Runs-IsAscending :
        (now : F) {s t : DesSimulator F S G} {es : List (TimestampedEvent F)}
        → IsAhead now s.queue
        → Runs strategy s es t
        → IsAscending now es
    Runs-IsAscending now a here = tt
    Runs-IsAscending now {s} a (next p e more runs) =
        let (later, a') = popped-IsAhead now s.queue p a e in
        (later, Runs-IsAscending p.0.time (dispatch-IsAhead strategy (popped s p.1) p.0 a') runs)
