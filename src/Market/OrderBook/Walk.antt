-- ===== src/Market/OrderBook/Walk.antt =====
-- The loop of `fill_side` of src/market/order_book.rs.
use strata_exec.Prelude.{
  ℕ, ◌+◌, ◌≤◌, ◌≡◌, refl, true, false, List, [], ◌∷◌, length, ◌⊎◌, inl, inr, arith, Bool-cases,
}
use strata_exec.Prelude.Int.{ℤ, pos, ◌+ℤ◌, +ℤ_parts}
use strata_exec.Float.{Float, ◌⊕◌, ◌⊖◌, ◌⊗◌, ◌<?◌, ◌≤?◌, lit, nought}
use strata_exec.Float.Laws.{IsRounding, IsExact}
use strata_exec.Float.Order.{
  ◌≼◌, ◌≺◌, IsNonneg, nought_parts, lit_nonneg, le→≼, not_lt→≼, not_le→≺, ≼→not_lt, sub-IsNonneg,
}
use strata_exec.Float.Exact.{Balance, add_parts, sub_parts}
use strata_exec.Market.OrderBook.{PriceLevel, Walked, walk}

module _ {F : Type 0} ⦃f : Float F⦄ where
  -- The three ways in which one round of the loop goes, as equations.
  walk_stop :
      (q n d : F) (k : ℕ) (l : PriceLevel F) (ls : List (PriceLevel F))
      → lit 1 12 <? q ≡ false
      → walk q n d k (l ∷ ls) ≡ record {
        ladder = l ∷ ls;
        remaining = q;
        notional_filled = n;
        filled_qty = d;
        levels_consumed = k;
      }
  unfolding walk
  walk_stop q n d k l ls h = rw h refl

  walk_whole :
      (q n d : F) (k : ℕ) (l : PriceLevel F) (ls : List (PriceLevel F))
      → lit 1 12 <? q ≡ true
      → l.quantity ≤? q ≡ true
      → walk q n d k (l ∷ ls)
        ≡ walk (q ⊖ l.quantity) (n ⊕ l.quantity ⊗ l.price) (d ⊕ l.quantity) (k + 1) ls
  unfolding walk
  walk_whole q n d k l ls h e = rw (h, e) refl

  walk_part :
      (q n d : F) (k : ℕ) (l : PriceLevel F) (ls : List (PriceLevel F))
      → lit 1 12 <? q ≡ true
      → l.quantity ≤? q ≡ false
      → walk q n d k (l ∷ ls) ≡ (
          let rest = walk nought (n ⊕ q ⊗ l.price) (d ⊕ q) (k + 1) ls in
          record rest { ladder = record l { quantity = l.quantity ⊖ q } ∷ rest.ladder })
  unfolding walk
  walk_part q n d k l ls h e = rw (h, e) refl

module _ {F : Type 0} ⦃f : Float F⦄ ⦃r : IsRounding F⦄ where
  -- `Takes q left before after`: a demand of q on the ladder `before` is filled level by level from the
  -- front, which makes the ladder `after` and leaves `left` of the demand. It ends at an empty ladder or
  -- a demand of at most 1e-12, or at a level larger than the demand, which is reduced by the demand;
  -- a level that fits into the demand is removed.
  pub data Takes : F → F → List (PriceLevel F) → List (PriceLevel F) → Type 0 where
    no_level : {q : F} → Takes q q [] []
    no_demand : {q : F} {ls : List (PriceLevel F)} → q ≼ lit 1 12 → Takes q q ls ls
    part :
        {q : F} {l : PriceLevel F} {ls : List (PriceLevel F)}
        → q ≺ l.quantity
        → Takes q nought (l ∷ ls) (record l { quantity = l.quantity ⊖ q } ∷ ls)
    whole :
        {q left : F} {l : PriceLevel F} {ls after : List (PriceLevel F)}
        → l.quantity ≼ q
        → Takes (q ⊖ l.quantity) left ls after
        → Takes q left (l ∷ ls) after

  abbrev pub depth : List (PriceLevel F) → ℤ
  depth [] = pos 0
  depth (l ∷ ls) = r.val l.quantity +ℤ depth ls

  -- With nothing to fill the loop leaves the ladder.
  walk-nought :
      (n d : F) (k : ℕ) (ls : List (PriceLevel F))
      → walk nought n d k ls ≡ record {
        ladder = ls;
        remaining = nought;
        notional_filled = n;
        filled_qty = d;
        levels_consumed = k;
      }
  unfolding walk
  walk-nought n d k [] = refl
  walk-nought n d k (l ∷ ls) =
      walk_stop nought n d k l ls
        (≼→not_lt {F = F} (lit 1 12) nought (omega (arith, nought_parts r, lit_nonneg r 1 12)))

  -- What the loop has done when it ends.
  pub record WalkSpec (q d : F) (ls : List (PriceLevel F)) (k : ℕ) (w : Walked F) : Type 0 where
    pub remaining_nonneg : IsNonneg w.remaining
    pub exhausted : (w.ladder ≡ []) ⊎ (w.remaining ≼ lit 1 12)
    pub levels : (k ≤ w.levels_consumed) × (w.levels_consumed ≤ k + length ls)
    pub takes : Takes q w.remaining ls w.ladder

  pub walk-WalkSpec :
      (q n d : F) (k : ℕ) (ls : List (PriceLevel F))
      → IsNonneg q
      → WalkSpec q d ls k (walk q n d k ls)
  walk-WalkSpec q n d k [] h =
      unfold walk in
      record {
        remaining_nonneg = h;
        exhausted = inl refl;
        levels = (omega arith, omega arith);
        takes = no_level;
      }
  walk-WalkSpec q n d k (l ∷ ls) h = elim (Bool-cases (lit 1 12 <? q)) [
    | inr stop ↦ rw (walk_stop q n d k l ls stop) (record {
      remaining_nonneg = h;
      exhausted = inr (not_lt→≼ (lit 1 12) q stop);
      levels = (omega arith, omega arith);
      takes = no_demand (not_lt→≼ (lit 1 12) q stop);
    })
    | inl go ↦ elim (Bool-cases (l.quantity ≤? q)) [
      | inl fits ↦
          let ih =
            walk-WalkSpec (q ⊖ l.quantity) (n ⊕ l.quantity ⊗ l.price) (d ⊕ l.quantity) (k + 1) ls
              (sub-IsNonneg q l.quantity (le→≼ l.quantity q fits)) in
          rw (walk_whole q n d k l ls go fits) (record {
            remaining_nonneg = ih.remaining_nonneg;
            exhausted = ih.exhausted;
            levels = (omega (arith, ih.levels), omega (arith, ih.levels));
            takes = whole (le→≼ l.quantity q fits) ih.takes;
          })
      | inr more ↦
          rw (walk_part q n d k l ls go more, walk-nought)
            (record {
              remaining_nonneg = omega (arith, nought_parts r);
              exhausted = inr (omega (arith, nought_parts r, lit_nonneg r 1 12));
              levels = (omega arith, omega arith);
              takes = part (not_le→≺ l.quantity q more);
            })
    ]
  ]

  module _ (x : IsExact F r) where
    abbrev pub Conserves : F → F → List (PriceLevel F) → Walked F → Type 0
    Conserves q d ls w =
        Balance (r.val w.filled_qty) (r.val w.remaining) (r.val d) (r.val q)
        × Balance (depth w.ladder) (r.val w.filled_qty) (depth ls) (r.val d)

    -- What is filled and what remains are what was asked, and what is filled is what the ladder lost.
    pub walk-Conserves :
        (q n d : F) (k : ℕ) (ls : List (PriceLevel F)) → Conserves q d ls (walk q n d k ls)
    walk-Conserves q n d k [] = unfold walk in (omega arith, omega arith)
    walk-Conserves q n d k (l ∷ ls) = elim (Bool-cases (lit 1 12 <? q)) [
      | inr stop ↦ rw (walk_stop q n d k l ls stop) (omega arith, omega arith)
      | inl go ↦ elim (Bool-cases (l.quantity ≤? q)) [
        | inl fits ↦
            let ih =
              walk-Conserves (q ⊖ l.quantity) (n ⊕ l.quantity ⊗ l.price) (d ⊕ l.quantity) (k + 1)
                ls in
            rw (walk_whole q n d k l ls go fits) (
              omega (arith, ih.0, sub_parts x q l.quantity, add_parts x d l.quantity),
              omega (arith, ih.1, add_parts x d l.quantity, +ℤ_parts (r.val l.quantity) (depth ls)),
            )
        | inr more ↦
            rw (walk_part q n d k l ls go more, walk-nought)
              (
                omega (arith, nought_parts r, add_parts x d q),
                omega (
                  arith,
                  add_parts x d q,
                  sub_parts x l.quantity q,
                  +ℤ_parts (r.val l.quantity) (depth ls),
                  +ℤ_parts (r.val (l.quantity ⊖ q)) (depth ls),
                ),
              )
      ]
    ]
