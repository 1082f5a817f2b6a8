-- ===== src/Market/Vpin/Buckets.antt =====
-- src/market/vpin.rs: the bucket loop ends, and each bucket's imbalance is between 0 and 1.
use strata_exec.Prelude.{
  ℕ, ◌+◌, ◌≤◌, List, [], ◌∷◌, ◌++◌, length, length-append, All, All-append, ltb, ltb→le,
  if◌then◌else◌, inl, inr, arith, Bool-cases,
}
use strata_exec.Prelude.Int.{pos, -ℤ_parts, *ℤ_mono_left, *ℤ_comm}
use strata_exec.Float.{Float, ◌⊖◌, ◌⊘◌, ◌<?◌, lit, nought, one, fabs}
use strata_exec.Float.Laws.{IsRounding, IsExact}
use strata_exec.Float.Order.{
  ◌≼◌, ◌≺◌, IsNonneg, nought_parts, lit_nonneg, lt→≺, fabs-IsNonneg, div-IsNonneg, add-IsNonneg,
}
use strata_exec.Float.Exact.{Balance, add_parts, sub_parts}
use strata_exec.Market.Vpin.{
  Direction, buys, sells, unknown, VpinCalculator, drop_first, imbalance, pour, seal, new_vpin,
}

length-drop_first {ℓ} :
    {A : Type ℓ} (xs : List A) (n : ℕ) → length xs ≤ n + 1 → length (drop_first xs) ≤ n
length-drop_first [] n h = omega arith
length-drop_first (x ∷ xs) n h = omega arith

All-drop_first : {A : Type 0} (P : A → Type 0) (xs : List A) → All P xs → All P (drop_first xs)
All-drop_first P [] h = tt
All-drop_first P (x ∷ xs) h = h.1

module _ {F : Type 0} ⦃f : Float F⦄ ⦃r : IsRounding F⦄ where
  -- Between 0 and 1.
  abbrev pub IsShare : F → Type 0
  IsShare b = IsNonneg b × (b ≼ one)

  -- The window holds shares, and no more of them than its size; the volumes of the bucket in progress
  -- are not negative and add up.
  pub record IsPoured (c : VpinCalculator F) : Type 0 where
    pub fits : length c.buckets ≤ c.window_buckets
    pub shares : All IsShare c.buckets
    pub buy_nonneg : IsNonneg c.current_buy_vol
    pub sell_nonneg : IsNonneg c.current_sell_vol
    pub split :
        Balance
          (r.val c.current_buy_vol)
          (r.val c.current_sell_vol)
          (r.val c.current_total_vol)
          (pos 0)

  -- Besides, the volume in progress is below the size of a bucket less 1e-12.
  pub record IsCalculator (c : VpinCalculator F) : Type 0 where
    pub poured : IsPoured c
    pub unfilled : c.current_total_vol ≺ c.bucket_size ⊖ lit 1 12

  div-le_one : (a b : F) → nought ≺ b → a ≼ b → a ⊘ b ≼ one
  div-le_one a b p h = r.div-le a b one (omega (arith, p, nought_parts r)) (
      rw (r.one-val, *ℤ_comm (r.val a) (pos r.unit))
        (*ℤ_mono_left (pos r.unit) (r.val a) (r.val b) (omega arith) h))

  module _ (x : IsExact F r) where
    gap_le :
        (a b t : F)
        → IsNonneg a
        → IsNonneg b
        → Balance (r.val a) (r.val b) (r.val t) (pos 0)
        → fabs (a ⊖ b) ≼ t
    unfolding fabs
    gap_le a b t p q e = ground (
      arith,
      r.lt-val (a ⊖ b) nought,
      nought_parts r,
      r.neg-val (a ⊖ b),
      -ℤ_parts (pos 0) (r.val (a ⊖ b)),
      sub_parts x a b,
    )

    imbalance-IsShare : (c : VpinCalculator F) → IsPoured c → IsShare (imbalance c)
    unfolding imbalance
    imbalance-IsShare c i = elim (Bool-cases (lit 1 15 <? c.current_total_vol)) [
      | inl h ↦
          let gap = fabs (c.current_buy_vol ⊖ c.current_sell_vol) in
          let above = lt→≺ (lit 1 15) c.current_total_vol h in
          let positive : nought ≺ c.current_total_vol =
            omega (arith, nought_parts r, lit_nonneg r 1 15) in
          rw h (
            div-IsNonneg gap c.current_total_vol
                (fabs-IsNonneg {F = F} (c.current_buy_vol ⊖ c.current_sell_vol)) positive,
            div-le_one gap c.current_total_vol positive (
                gap_le c.current_buy_vol c.current_sell_vol c.current_total_vol i.buy_nonneg
                  i.sell_nonneg i.split),
          )
      | inr h ↦
          rw h (omega (arith, nought_parts r), omega (arith, nought_parts r, lit_nonneg r 1 0))
    ]

    pub pour-IsPoured :
        (c : VpinCalculator F) (d : Direction) (fill : F)
        → IsPoured c
        → IsNonneg fill
        → IsPoured (pour c d fill)
    unfolding pour
    pour-IsPoured c buys fill i h = record {
      fits = i.fits;
      shares = i.shares;
      buy_nonneg = add-IsNonneg c.current_buy_vol fill i.buy_nonneg h;
      sell_nonneg = i.sell_nonneg;
      split = omega (
        arith,
        i.split,
        add_parts x c.current_buy_vol fill,
        add_parts x c.current_total_vol fill,
      );
    }
    pour-IsPoured c sells fill i h = record {
      fits = i.fits;
      shares = i.shares;
      buy_nonneg = i.buy_nonneg;
      sell_nonneg = add-IsNonneg c.current_sell_vol fill i.sell_nonneg h;
      split = omega (
        arith,
        i.split,
        add_parts x c.current_sell_vol fill,
        add_parts x c.current_total_vol fill,
      );
    }
    pour-IsPoured c unknown fill i h = record {
      fits = i.fits;
      shares = i.shares;
      buy_nonneg = i.buy_nonneg;
      sell_nonneg = add-IsNonneg c.current_sell_vol fill i.sell_nonneg h;
      split = omega (
        arith,
        i.split,
        add_parts x c.current_sell_vol fill,
        add_parts x c.current_total_vol fill,
      );
    }

    -- The window after a push.
    rolled :
        (window : ℕ) (bs : List F) (b : F)
        → length bs ≤ window
        → All IsShare bs
        → IsShare b
        → let pushed = bs ++ b ∷ [] in
          let kept = if ltb window (length pushed) then drop_first pushed else pushed in
          (length kept ≤ window) × All IsShare kept
    rolled window bs b h hs hb =
        let pushed = bs ++ b ∷ [] in
        let all = All-append IsShare bs (b ∷ []) hs (hb, tt) in
        let one_more = length-append bs (b ∷ []) in
        elim (Bool-cases (ltb window (length pushed))) [
          | inl e ↦ rw e (
            length-drop_first pushed window (omega (arith, one_more)),
            All-drop_first IsShare pushed all,
          )
          | inr e ↦ rw e (ltb→le window (length pushed) e, all)
        ]

    pub seal-IsCalculator :
        (c : VpinCalculator F)
        → nought ≺ c.bucket_size ⊖ lit 1 12
        → IsPoured c
        → IsCalculator (seal c)
    unfolding seal
    seal-IsCalculator c room i =
        let (fits, shares) =
          rolled c.window_buckets c.buckets (imbalance c) i.fits i.shares (imbalance-IsShare c i) in
        record {
          poured = record {
            fits = fits;
            shares = shares;
            buy_nonneg = omega (arith, nought_parts r);
            sell_nonneg = omega (arith, nought_parts r);
            split = omega (arith, nought_parts r);
          };
          unfilled = room;
        }

  pub new_vpin-IsCalculator :
      (bucket_size : F) (window : ℕ)
      → nought ≺ bucket_size ⊖ lit 1 12
      → IsCalculator (new_vpin bucket_size window)
  unfolding new_vpin
  new_vpin-IsCalculator bucket_size window room = record {
    poured = record {
      fits = omega arith;
      shares = tt;
      buy_nonneg = omega (arith, nought_parts r);
      sell_nonneg = omega (arith, nought_parts r);
      split = omega (arith, nought_parts r);
    };
    unfilled = room;
  }
