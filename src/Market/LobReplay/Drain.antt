-- ===== src/Market/LobReplay/Drain.antt =====
-- src/market/lob_replay.rs: what a caller reads who takes snapshots until there are none.
use strata_exec.Prelude.{
  ℕ, zero, suc, ◌+◌, ◌-◌, ◌≤◌, ◌≡◌, refl, Option, none, some, List, [], ◌∷◌, map, length, get_elem?,
  arith,
}
use strata_exec.Market.OrderBook.{OrderBook}
use strata_exec.Market.LobReplay.{
  LobSnapshot, LobReplay, to_order_book, next_snapshot, reset, seek, min,
}

module _ {F : Type 0} where
  before : Option (OrderBook F) → List (OrderBook F) → List (OrderBook F)
  before none books = []
  before (some book) books = book ∷ books

  -- The books of the calls of `next_snapshot` up to the first that returns `None`, of at most `calls`.
  unfoldable pub drain : ℕ → LobReplay F → List (OrderBook F)
  unfolding before
  drain zero r = []
  drain (suc calls) r = before (next_snapshot r).0 (drain calls (next_snapshot r).1)

  abbrev pub drop : ℕ → List (LobSnapshot F) → List (LobSnapshot F)
  drop zero xs = xs
  drop (suc n) [] = []
  drop (suc n) (x ∷ xs) = drop n xs

  abbrev at : List (LobSnapshot F) → ℕ → LobReplay F
  at xs c = record { snapshots = xs; cursor = c }

  abbrev Reads : ℕ → List (LobSnapshot F) → ℕ → Type 0
  Reads calls xs c = drain calls (at xs c) ≡ map to_order_book (drop c xs)

  drain_end :
      (calls : ℕ) (xs : List (LobSnapshot F)) (c : ℕ)
      → get_elem? xs c ≡ none
      → drain calls (at xs c) ≡ []
  unfolding drain next_snapshot
  drain_end zero xs c e = refl
  drain_end (suc calls) xs c e = rw e refl

  next_snapshot-some :
      (xs : List (LobSnapshot F)) (c : ℕ) (s : LobSnapshot F)
      → get_elem? xs c ≡ some s
      → next_snapshot (at xs c) ≡ (some (to_order_book s), at xs (suc c))
  unfolding next_snapshot
  next_snapshot-some xs c s e = rw e refl

  drain_step :
      (calls : ℕ) (xs : List (LobSnapshot F)) (c : ℕ) (s : LobSnapshot F)
      → get_elem? xs c ≡ some s
      → drain (suc calls) (at xs c) ≡ to_order_book s ∷ drain calls (at xs (suc c))
  drain_step calls xs c s e = unfold drain before in rw (next_snapshot-some xs c s e) refl

  data Front : List (LobSnapshot F) → ℕ → Type 0 where
    past : {xs : List (LobSnapshot F)} {c : ℕ} → get_elem? xs c ≡ none → drop c xs ≡ [] → Front xs c
    here :
        {xs : List (LobSnapshot F)} {c : ℕ} (s : LobSnapshot F)
        → get_elem? xs c ≡ some s
        → drop c xs ≡ s ∷ drop (suc c) xs
        → Front xs c

  front : (xs : List (LobSnapshot F)) (c : ℕ) → Front xs c
  front [] zero = past refl refl
  front [] (suc c) = past refl refl
  front (x ∷ xs) zero = here x refl refl
  front (x ∷ xs) (suc c) = elim (front xs c) [ past e d ↦ past e d | here s e d ↦ here s e d ]

  drop_all : (xs : List (LobSnapshot F)) (c : ℕ) → length xs ≤ c → drop c xs ≡ []
  drop_all [] zero h = refl
  drop_all [] (suc c) h = refl
  drop_all (x ∷ xs) zero h = absurd (omega arith)
  drop_all (x ∷ xs) (suc c) h = drop_all xs c (omega arith)

  -- Calls enough to pass the end read every snapshot from the cursor on, in order.
  drain-Reads :
      (calls : ℕ) (xs : List (LobSnapshot F)) (c : ℕ) → length xs ≤ calls + c → Reads calls xs c
  drain-Reads zero xs c h = unfold drain in rw (drop_all xs c (omega arith)) refl
  drain-Reads (suc calls) xs c h = elim (front xs c) [
    | past e d ↦ rw (d, drain_end (suc calls) xs c e) refl
    | here s e d ↦
        rw (d, drain_step calls xs c s e, drain-Reads calls xs (suc c) (omega arith)) refl
  ]

  drain-seek :
      (calls : ℕ) (xs : List (LobSnapshot F)) (c offset : ℕ)
      → length xs ≤ calls
      → drain calls (seek (at xs c) offset)
        ≡ map to_order_book (drop (min offset (length xs - 1)) xs)
  unfolding seek
  drain-seek calls [] c offset h =
      rw (drop_all [] (min offset (0 - 1)) (omega arith)) (drain-Reads calls [] 0 (omega arith))
  drain-seek calls (x ∷ xs) c offset h =
      drain-Reads calls (x ∷ xs) (min offset (length (x ∷ xs) - 1)) (omega arith)

  -- A replay that is reset, and asked at least as often as it has snapshots, returns exactly its
  -- snapshots as books, in order; sought to an offset it returns those from the offset on, and the
  -- last one alone where the offset is past the end.
  pub next_snapshot-reset :
      (r : LobReplay F) (offset calls : ℕ)
      → length r.snapshots ≤ calls
      → (drain calls (reset r) ≡ map to_order_book r.snapshots)
        × (drain calls (seek r offset)
            ≡ map to_order_book (drop (min offset (length r.snapshots - 1)) r.snapshots))
  unfolding reset
  next_snapshot-reset r offset calls h = (
    drain-Reads calls r.snapshots 0 (omega arith),
    drain-seek calls r.snapshots r.cursor offset h,
  )
