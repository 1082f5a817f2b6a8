-- ===== src/Events/Queue/Laws.antt =====
-- The order in which the queue of src/events/queue.rs gives its events.
use mathlib.Core.List.{Perm}
use mathlib.Core.List.Perm
use strata_exec.Prelude.{
  ℕ, suc, length, ◌<◌, ◌≡◌, ◌≢◌, refl, Option, none, some, List, [], ◌∷◌, All, All-map, inl, inr,
  arith, Bool-cases,
}
use strata_exec.Float.{Float}
use strata_exec.Events.{SimEvent}
use strata_exec.Events.Queue.{
  TimestampedEvent, EventQueue, cmp, is_less, choose, heap_pop, new_queue, schedule,
}

-- What `heap_pop` keeps of any property of all events.
abbrev pub PopAll :
    {F : Type 0}
    → (TimestampedEvent F → Type 0)
    → Option (TimestampedEvent F × List (TimestampedEvent F))
    → Type 0
PopAll P none = Unit
PopAll P (some (m, rest)) = P m × All P rest

module _ {F : Type 0} where
  abbrev pub Fresh : ℕ → List (TimestampedEvent F) → Type 0
  Fresh n h = All (λ x. n ≢ x.seq) h

  abbrev pub AreDistinct : List (TimestampedEvent F) → Type 0
  AreDistinct [] = Unit
  AreDistinct (x ∷ xs) = Fresh x.seq xs × AreDistinct xs

  -- Sequence numbers are distinct, and those to come are larger.
  pub record IsValid (q : EventQueue F) : Type 0 where
    pub below : All (λ x. x.seq < q.next_seq) q.heap
    pub distinct : AreDistinct q.heap

module _ {F : Type 0} ⦃f : Float F⦄ where
  choose-PopAll :
      (P : TimestampedEvent F → Type 0) (x : TimestampedEvent F)
      (o : Option (TimestampedEvent F × List (TimestampedEvent F)))
      → P x
      → PopAll P o
      → PopAll P (some (choose x o))
  unfolding choose
  choose-PopAll P x none p h = (p, tt)
  choose-PopAll P x (some (m, rest)) p (pm, h) = elim (Bool-cases (is_less (cmp x m))) [
    | inl e ↦ rw e (pm, (p, h))
    | inr e ↦ rw e (p, (pm, h))
  ]

  pub heap_pop-PopAll :
      (P : TimestampedEvent F → Type 0) (h : List (TimestampedEvent F))
      → All P h
      → PopAll P (heap_pop h)
  unfolding heap_pop
  heap_pop-PopAll P [] h = tt
  heap_pop-PopAll P (x ∷ xs) (p, ps) = choose-PopAll P x (heap_pop xs) p (heap_pop-PopAll P xs ps)

  abbrev pub Rearranges :
      List (TimestampedEvent F) → Option (TimestampedEvent F × List (TimestampedEvent F)) → Type 0
  Rearranges h none = h ≡ []
  Rearranges h (some (m, rest)) = Perm h (m ∷ rest)

  choose-Rearranges :
      (x : TimestampedEvent F) (xs : List (TimestampedEvent F))
      (o : Option (TimestampedEvent F × List (TimestampedEvent F)))
      → Rearranges xs o
      → Rearranges (x ∷ xs) (some (choose x o))
  unfolding choose
  choose-Rearranges x xs none e = rw e (Perm.refl _)
  choose-Rearranges x xs (some (m, rest)) p = elim (Bool-cases (is_less (cmp x m))) [
    | inl e ↦ rw e (Perm.trans (Perm.cons x p) (Perm.swap m x rest))
    | inr e ↦ rw e (Perm.cons x p)
  ]

  pub heap_pop-Rearranges : (h : List (TimestampedEvent F)) → Rearranges h (heap_pop h)
  unfolding heap_pop
  heap_pop-Rearranges [] = refl
  heap_pop-Rearranges (x ∷ xs) = choose-Rearranges x xs (heap_pop xs) (heap_pop-Rearranges xs)

  abbrev pub PopDistinct : Option (TimestampedEvent F × List (TimestampedEvent F)) → Type 0
  PopDistinct none = Unit
  PopDistinct (some (m, rest)) = AreDistinct (m ∷ rest)

  choose-PopDistinct :
      (x : TimestampedEvent F) (o : Option (TimestampedEvent F × List (TimestampedEvent F)))
      → PopAll (λ y. x.seq ≢ y.seq) o
      → PopDistinct o
      → PopDistinct (some (choose x o))
  unfolding choose
  choose-PopDistinct x none a d = (tt, tt)
  choose-PopDistinct x (some (m, rest)) (ne, a) (b, d) = elim (Bool-cases (is_less (cmp x m))) [
    | inl e ↦ rw e (((λ p. ne (omega arith)), b), (a, d))
    | inr e ↦ rw e ((ne, a), (b, d))
  ]

  pub heap_pop-PopDistinct :
      (h : List (TimestampedEvent F)) → AreDistinct h → PopDistinct (heap_pop h)
  unfolding heap_pop
  heap_pop-PopDistinct [] d = tt
  heap_pop-PopDistinct (x ∷ xs) (a, d) =
      choose-PopDistinct x (heap_pop xs) (heap_pop-PopAll (λ y. x.seq ≢ y.seq) xs a)
        (heap_pop-PopDistinct xs d)

  -- An empty queue is well formed.
  pub new_queue-IsValid : IsValid (new_queue {F = F})
  unfolding new_queue
  new_queue-IsValid = record { below = tt; distinct = tt }

  Fresh-of_below : (n : ℕ) (h : List (TimestampedEvent F)) → All (λ x. x.seq < n) h → Fresh n h
  Fresh-of_below n h b = All-map _ _ h (λ x p. omega arith) b

  pub schedule-IsValid :
      (q : EventQueue F) (t : F) (e : SimEvent F) → IsValid q → IsValid (schedule q t e)
  unfolding schedule
  schedule-IsValid q t e v = record {
    below = (omega arith, All-map _ _ q.heap (λ x p. omega arith) v.below);
    distinct = (Fresh-of_below q.next_seq q.heap v.below, v.distinct);
  }

  abbrev pub PopLength : ℕ → Option (TimestampedEvent F × List (TimestampedEvent F)) → Type 0
  PopLength n none = n ≡ 0
  PopLength n (some (m, rest)) = n ≡ suc (length rest)

  choose-PopLength :
      (x : TimestampedEvent F) (n : ℕ) (o : Option (TimestampedEvent F × List (TimestampedEvent F)))
      → PopLength n o
      → PopLength (suc n) (some (choose x o))
  unfolding choose
  choose-PopLength x n none e = omega arith
  choose-PopLength x n (some (m, rest)) e = ground arith

  pub heap_pop-PopLength : (h : List (TimestampedEvent F)) → PopLength (length h) (heap_pop h)
  unfolding heap_pop
  heap_pop-PopLength [] = refl
  heap_pop-PopLength (x ∷ xs) = choose-PopLength x (length xs) (heap_pop xs) (heap_pop-PopLength xs)
