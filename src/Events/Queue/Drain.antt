-- ===== src/Events/Queue/Drain.antt =====
-- Popping the queue of src/events/queue.rs until it is empty, as the event loop does.
use mathlib.Core.List.{Perm}
use mathlib.Core.List.Perm
use mathlib.Core.Option.{some-injective}
use strata_exec.Prelude.{
  ℕ, zero, suc, ◌≡◌, refl, Option, none, some, List, [], ◌∷◌, All, length, inl, inr, arith,
  Option-cases,
}
use strata_exec.Float.{Float}
use strata_exec.Float.Laws.{IsRounding}
use strata_exec.Events.Queue.{TimestampedEvent, EventQueue, heap_pop, with_rest, pop, len}
use strata_exec.Events.Queue.Laws.{
  IsValid, PopAll, heap_pop-PopAll, Rearranges, heap_pop-Rearranges,
}
use strata_exec.Events.Queue.Order.{Before, pop_first}

module _ {F : Type 0} ⦃f : Float F⦄ where
  -- `while let Some(e) = q.pop()`, for at most `n` rounds: the events in the order they come.
  unfoldable pub drain : ℕ → EventQueue F → List (TimestampedEvent F)
  drain zero q = []
  drain (suc n) q = elim (pop q) [ none ↦ [] | some (e, q') ↦ e ∷ drain n q' ]

  drain-none : (n : ℕ) (q : EventQueue F) → pop q ≡ none → drain (suc n) q ≡ []
  unfolding drain
  drain-none n q e = rw (e, drain) refl

  drain-some :
      (n : ℕ) (q : EventQueue F) (p : TimestampedEvent F × EventQueue F)
      → pop q ≡ some p
      → drain (suc n) q ≡ p.0 ∷ drain n p.1
  unfolding drain
  drain-some n q p e = rw (e, drain) refl

  with_rest-All :
      (P : TimestampedEvent F → Type 0) (n : ℕ)
      (o : Option (TimestampedEvent F × List (TimestampedEvent F)))
      {p : TimestampedEvent F × EventQueue F}
      → PopAll P o
      → with_rest n o ≡ some p
      → P p.0 × All P p.1.heap
  with_rest-All P n none a e = cc
  with_rest-All P n (some (m, rest)) a e = rw (← some-injective _ _ e) a

  pub pop-All :
      (P : TimestampedEvent F → Type 0) (q : EventQueue F) {p : TimestampedEvent F × EventQueue F}
      → All P q.heap
      → pop q ≡ some p
      → P p.0 × All P p.1.heap
  unfolding pop
  pop-All P q a e = with_rest-All P q.next_seq (heap_pop q.heap) (heap_pop-PopAll P q.heap a) e

  empty_of_none :
      (n : ℕ) (h : List (TimestampedEvent F))
      (o : Option (TimestampedEvent F × List (TimestampedEvent F)))
      → Rearranges h o
      → with_rest n o ≡ none
      → h ≡ []
  empty_of_none n h none e _ = e
  empty_of_none n h (some (m, rest)) p e = cc

  -- Only the empty queue gives nothing.
  pub pop-none : (q : EventQueue F) → pop q ≡ none → q.heap ≡ []
  unfolding pop
  pop-none q e = empty_of_none q.next_seq q.heap (heap_pop q.heap) (heap_pop-Rearranges q.heap) e

  drain-All :
      (P : TimestampedEvent F → Type 0) (n : ℕ) (q : EventQueue F)
      → All P q.heap
      → All P (drain n q)
  unfolding drain
  drain-All P zero q a = tt
  drain-All P (suc n) q a = elim (Option-cases (pop q)) [
    | inl e ↦ rw (drain-none n q e) tt
    | inr (p, e) ↦
        let kept = pop-All P q a e in rw (drain-some n q p e) (kept.0, drain-All P n p.1 kept.1)
  ]

  nil_of_empty : (h : List (TimestampedEvent F)) → length h ≡ 0 → h ≡ []
  nil_of_empty [] e = refl
  nil_of_empty (x ∷ xs) e = absurd (omega arith)

  module _ ⦃r : IsRounding F⦄ where
    abbrev pub IsOrdered : List (TimestampedEvent F) → Type 0
    IsOrdered [] = Unit
    IsOrdered (e ∷ es) = All (Before e) es × IsOrdered es

    drain_lem :
        (n : ℕ) (q : EventQueue F)
        → IsValid q
        → len q ≡ n
        → IsOrdered (drain n q) × Perm q.heap (drain n q)
    unfolding drain len
    drain_lem zero q v e = (tt, rw (nil_of_empty q.heap e) (Perm.refl _))
    drain_lem (suc n) q v e = elim (Option-cases (pop q)) [
      | inl stop ↦ absurd (let h = pop-none q stop in omega (arith, ap_length q.heap h))
      | inr (p, more) ↦
          let (perm, first, v', l) = pop_first q v more in
          let ih = drain_lem n p.1 v' (omega arith) in
          rw (drain-some n q p more)
            ((drain-All _ n p.1 first, ih.0), Perm.trans perm (Perm.cons p.0 ih.1))
    ]
      where
        ap_length : (h : List (TimestampedEvent F)) → h ≡ [] → length h ≡ 0
        ap_length h p = rw p refl

    -- Popping a well-formed queue until it is empty gives every event once, in strictly
    -- increasing order of (time, sequence number): it is a stable sort by time.
    pub drain_sorts :
        (q : EventQueue F) → IsValid q → IsOrdered (drain (len q) q) × Perm q.heap (drain (len q) q)
    drain_sorts q v = drain_lem (len q) q v refl
