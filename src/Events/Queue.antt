-- ===== src/Events/Queue.antt =====
-- src/events/queue.rs: the event queue. `std::collections::BinaryHeap` is a list of which `pop`
-- takes an element that is greatest by `Ord::cmp`.
pub mod Laws
pub mod Order
pub mod Drain
use Prim.Native.Nat.{compare, Ordering}
use strata_exec.Prelude.{
  ℕ, ◌+◌, Bool, true, false, Option, none, some, List, [], ◌∷◌, length, if◌then◌else◌,
}
use strata_exec.Float.{Float, partial_cmp}
use strata_exec.Events.{SimEvent}

pub record TimestampedEvent (F : Type 0) : Type 0 where
  pub time : F
  pub seq : ℕ
  pub event : SimEvent F

pub record EventQueue (F : Type 0) : Type 0 where
  pub heap : List (TimestampedEvent F)
  pub next_seq : ℕ

abbrev pub unwrap_or_equal : Option Ordering → Ordering
unwrap_or_equal none = Ordering.eq
unwrap_or_equal (some o) = o

abbrev pub then_with : Ordering → Ordering → Ordering
then_with Ordering.lt _ = Ordering.lt
then_with Ordering.eq o = o
then_with Ordering.gt _ = Ordering.gt

abbrev pub is_less : Ordering → Bool
is_less Ordering.lt = true
is_less Ordering.eq = false
is_less Ordering.gt = false

module _ {F : Type 0} ⦃f : Float F⦄ where
  -- Reversed, since the heap gives its greatest element: the smaller time is the greater.
  unfoldable pub cmp : TimestampedEvent F → TimestampedEvent F → Ordering
  unfolding partial_cmp
  cmp self other =
      then_with (unwrap_or_equal (partial_cmp other.time self.time)) (compare other.seq self.seq)

  -- One element against the greatest of the others.
  unfoldable pub choose :
      TimestampedEvent F
      → Option (TimestampedEvent F × List (TimestampedEvent F))
      → TimestampedEvent F × List (TimestampedEvent F)
  choose x none = (x, [])
  choose x (some (m, rest)) = if is_less (cmp x m) then (m, x ∷ rest) else (x, m ∷ rest)

  -- `BinaryHeap::pop`.
  unfoldable pub heap_pop :
      List (TimestampedEvent F) → Option (TimestampedEvent F × List (TimestampedEvent F))
  unfolding choose
  heap_pop [] = none
  heap_pop (x ∷ xs) = some (choose x (heap_pop xs))

  unfoldable pub new_queue : EventQueue F
  new_queue = record { heap = []; next_seq = 0 }

  unfoldable pub schedule : EventQueue F → F → SimEvent F → EventQueue F
  schedule q time event = record {
    heap = record { time = time; seq = q.next_seq; event = event } ∷ q.heap;
    next_seq = q.next_seq + 1;
  }

  abbrev pub with_rest :
      ℕ
      → Option (TimestampedEvent F × List (TimestampedEvent F))
      → Option (TimestampedEvent F × EventQueue F)
  with_rest n none = none
  with_rest n (some (e, rest)) = some (e, record { heap = rest; next_seq = n })

  unfoldable pub pop : EventQueue F → Option (TimestampedEvent F × EventQueue F)
  unfolding heap_pop cmp partial_cmp
  pop q = with_rest q.next_seq (heap_pop q.heap)

  unfoldable pub is_empty : EventQueue F → Bool
  is_empty q = elim q.heap [ [] ↦ true | x ∷ xs ↦ false ]

  unfoldable pub len : EventQueue F → ℕ
  len q = length q.heap
