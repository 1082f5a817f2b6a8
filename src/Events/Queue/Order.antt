-- ===== src/Events/Queue/Order.antt =====
-- The order in which the queue of src/events/queue.rs gives its events: by time, then by sequence
-- number.
use mathlib.Core.List.{Perm}
use mathlib.Core.Option.{some-injective}
use strata_exec.Prelude.{
  suc, length, ◌≤◌, ◌<◌, ◌≡◌, ◌≢◌, true, false, Option, none, some, List, [], ◌∷◌, All, All-map,
  ◌⊎◌, inl, inr, arith, Bool-cases,
}
use strata_exec.Float.{Float}
use strata_exec.Float.Laws.{IsRounding}
use strata_exec.Float.Order.{◌≼◌, ◌≺◌}
use strata_exec.Events.Queue.{
  TimestampedEvent, EventQueue, cmp, is_less, choose, heap_pop, with_rest, pop, len,
}
use strata_exec.Events.Queue.Laws.{
  IsValid, PopAll, heap_pop-PopAll, Rearranges, heap_pop-Rearranges, PopDistinct,
  heap_pop-PopDistinct, PopLength, heap_pop-PopLength,
}

module _ {F : Type 0} ⦃f : Float F⦄ where
  module _ ⦃r : IsRounding F⦄ where
    -- The key (time, seq) of one event is at most that of another.
    abbrev pub AtOrBefore : TimestampedEvent F → TimestampedEvent F → Type 0
    AtOrBefore a b = (a.time ≺ b.time) ⊎ ((a.time ≼ b.time) × (b.time ≼ a.time) × (a.seq ≤ b.seq))

    -- The key of one event is less than that of another: an earlier time, or the same and scheduled first.
    abbrev pub Before : TimestampedEvent F → TimestampedEvent F → Type 0
    Before a b = (a.time ≺ b.time) ⊎ ((a.time ≼ b.time) × (b.time ≼ a.time) × (a.seq < b.seq))

    pub less→AtOrBefore : (x m : TimestampedEvent F) → is_less (cmp x m) ≡ true → AtOrBefore m x
    unfolding cmp
    less→AtOrBefore x m h =
        ground (arith, r.lt-val m.time x.time, r.lt-val x.time m.time, r.eq-val m.time x.time)

    pub not_less→AtOrBefore :
        (x m : TimestampedEvent F) → is_less (cmp x m) ≡ false → AtOrBefore x m
    unfolding cmp
    not_less→AtOrBefore x m h =
        ground (arith, r.lt-val m.time x.time, r.lt-val x.time m.time, r.eq-val m.time x.time)

    pub AtOrBefore-trans :
        (a b c : TimestampedEvent F) → AtOrBefore a b → AtOrBefore b c → AtOrBefore a c
    AtOrBefore-trans a b c p q = omega arith

    abbrev pub IsFirst : Option (TimestampedEvent F × List (TimestampedEvent F)) → Type 0
    IsFirst none = Unit
    IsFirst (some (m, rest)) = All (AtOrBefore m) rest

    choose-IsFirst :
        (x : TimestampedEvent F) (o : Option (TimestampedEvent F × List (TimestampedEvent F)))
        → IsFirst o
        → IsFirst (some (choose x o))
    unfolding choose
    choose-IsFirst x none h = tt
    choose-IsFirst x (some (m, rest)) h = elim (Bool-cases (is_less (cmp x m))) [
      | inl e ↦ rw e (less→AtOrBefore x m e, h)
      | inr e ↦
          let first = not_less→AtOrBefore x m e in
          rw e (first, All-map _ _ rest (λ y p. AtOrBefore-trans x m y first p) h)
    ]

    pub heap_pop-IsFirst : (h : List (TimestampedEvent F)) → IsFirst (heap_pop h)
    unfolding heap_pop
    heap_pop-IsFirst [] = tt
    heap_pop-IsFirst (x ∷ xs) = choose-IsFirst x (heap_pop xs) (heap_pop-IsFirst xs)

    -- With distinct sequence numbers the order is strict.
    strict :
        (m : TimestampedEvent F) (rest : List (TimestampedEvent F))
        → All (λ x. m.seq ≢ x.seq) rest
        → All (AtOrBefore m) rest
        → All (Before m) rest
    strict m [] d h = tt
    strict m (x ∷ xs) (d, ds) (h, hs) = (omega arith, strict m xs ds hs)

    abbrev pub PopSpec : EventQueue F → TimestampedEvent F → EventQueue F → Type 0
    PopSpec q e q' =
        Perm q.heap (e ∷ q'.heap) × All (Before e) q'.heap × IsValid q' × (len q ≡ suc (len q'))

    with_rest-PopSpec :
        (q : EventQueue F) (o : Option (TimestampedEvent F × List (TimestampedEvent F)))
        {p : TimestampedEvent F × EventQueue F}
        → PopAll (λ x. x.seq < q.next_seq) o
        → Rearranges q.heap o
        → PopDistinct o
        → PopLength (length q.heap) o
        → IsFirst o
        → with_rest q.next_seq o ≡ some p
        → PopSpec q p.0 p.1
    unfolding len
    with_rest-PopSpec q none a perm d l h e = cc
    with_rest-PopSpec q (some (m, rest)) (b, bs) perm (ne, d) l h e =
        rw (← some-injective _ _ e)
          (perm, strict m rest ne h, record { below = bs; distinct = d }, l)

    -- `pop` takes out one event, whose key (time, sequence number) is strictly less than that of each
    -- event that it leaves, so that events of one time come out in the order in which they were
    -- scheduled; nothing is lost or invented, and the queue stays well formed.
    pub pop_first :
        (q : EventQueue F) {p : TimestampedEvent F × EventQueue F}
        → IsValid q
        → pop q ≡ some p
        → PopSpec q p.0 p.1
    unfolding pop
    pop_first q v e =
        with_rest-PopSpec q (heap_pop q.heap) (heap_pop-PopAll _ q.heap v.below)
          (heap_pop-Rearranges q.heap) (heap_pop-PopDistinct q.heap v.distinct)
          (heap_pop-PopLength q.heap) (heap_pop-IsFirst q.heap) e
