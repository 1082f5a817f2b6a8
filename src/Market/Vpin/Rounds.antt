-- ===== src/Market/Vpin/Rounds.antt =====
-- src/market/vpin.rs: the bucket loop of `add_trade` ends within as many rounds as the volume fills
-- buckets, and one or two more.
use strata_exec.Prelude.{
  ℕ, zero, suc, ◌≡◌, refl, ◌∙◌, Bool, true, false, Option, none, some, ◌⊎◌, inl, inr, arith,
  Bool-cases,
}
use strata_exec.Prelude.Int.{ℤ, pos, ◌+ℤ◌, ◌≤ℤ◌, +ℤ_parts}
use strata_exec.Float.{Float, ◌⊕◌, ◌⊖◌, ◌<?◌, ◌≤?◌, lit, nought, fmin}
use strata_exec.Float.Laws.{IsRounding, IsExact}
use strata_exec.Float.Order.{
  ◌≼◌, ◌≺◌, IsNonneg, nought_parts, lit_nonneg, lt→≺, not_le→≺, ≼→not_lt, fmin_lem, le-fmin,
}
use strata_exec.Float.Exact.{total, add_parts, sub_parts}
use strata_exec.Strategies.AlmgrenChriss.{equal_trades}
use strata_exec.Market.Vpin.{
  Direction, VpinCalculator, pour, seal, fill_buckets, add_trade, mean_imbalance,
}
use strata_exec.Market.Vpin.Buckets.{IsPoured, IsCalculator, pour-IsPoured, seal-IsCalculator}

module _ {F : Type 0} ⦃f : Float F⦄ where
  abbrev space : VpinCalculator F → F → F
  space c remaining = fmin remaining (c.bucket_size ⊖ c.current_total_vol)

  abbrev is_full : VpinCalculator F → VpinCalculator F → Bool
  is_full c poured = c.bucket_size ⊖ lit 1 12 ≤? poured.current_total_vol

  fill_buckets_stops :
      (n : ℕ) (c : VpinCalculator F) (d : Direction) (remaining : F) (res : Option F)
      → lit 1 15 <? remaining ≡ false
      → fill_buckets (suc n) c d remaining res ≡ some (c, res)
  unfolding fill_buckets
  fill_buckets_stops n c d remaining res e = rw e refl

  fill_buckets_seals :
      (n : ℕ) (c : VpinCalculator F) (d : Direction) (remaining : F) (res : Option F)
      → lit 1 15 <? remaining ≡ true
      → is_full c (pour c d (space c remaining)) ≡ true
      → let sealed = seal (pour c d (space c remaining)) in
        fill_buckets (suc n) c d remaining res
        ≡ fill_buckets n sealed d
            (remaining ⊖ space c remaining)
            (some (mean_imbalance sealed.buckets))
  fill_buckets_seals n c d remaining res e h = unfold fill_buckets in rw (e, h) refl

  fill_buckets_pours :
      (n : ℕ) (c : VpinCalculator F) (d : Direction) (remaining : F) (res : Option F)
      → lit 1 15 <? remaining ≡ true
      → is_full c (pour c d (space c remaining)) ≡ false
      → fill_buckets (suc n) c d remaining res
        ≡ fill_buckets n (pour c d (space c remaining)) d (remaining ⊖ space c remaining) res
  fill_buckets_pours n c d remaining res e h = unfold fill_buckets in rw (e, h) refl

  pour_bucket :
      (c : VpinCalculator F) (d : Direction) (fill : F)
      → (pour c d fill).bucket_size ≡ c.bucket_size
  unfolding pour
  pour_bucket c d fill = refl

  pour_total :
      (c : VpinCalculator F) (d : Direction) (fill : F)
      → (pour c d fill).current_total_vol ≡ c.current_total_vol ⊕ fill
  unfolding pour
  pour_total c d fill = refl

  seal_bucket : (c : VpinCalculator F) → (seal c).bucket_size ≡ c.bucket_size
  unfolding seal
  seal_bucket c = refl

  seal_total : (c : VpinCalculator F) → (seal c).current_total_vol ≡ nought
  unfolding seal
  seal_total c = refl

module _ {F : Type 0} ⦃f : Float F⦄ ⦃r : IsRounding F⦄ where
  -- A result with a calculator in order, of the same bucket size.
  pub data Returns (bucket : F) : Option (VpinCalculator F × Option F) → Type 0 where
    returned :
        (c : VpinCalculator F) (res : Option F)
        → IsCalculator c
        → c.bucket_size ≡ bucket
        → Returns bucket (some (c, res))

  equal_nonneg : (n : ℕ) (b : F) → IsNonneg b → pos 0 ≤ℤ total (equal_trades n b)
  unfolding total equal_trades
  equal_nonneg zero b h = omega arith
  equal_nonneg (suc n) b h =
      omega (arith, equal_nonneg n b h, +ℤ_parts (r.val b) (total (equal_trades n b)))

  module _ (x : IsExact F r) where
    -- What is left fits in one bucket less than before.
    one_bucket_less :
        (rem tot bucket fill : F) (more : ℤ)
        → fill ≡ rem ⊎ fill ≡ bucket ⊖ tot
        → pos 0 ≤ℤ more
        → r.val rem +ℤ r.val tot ≤ℤ r.val bucket +ℤ more
        → r.val (rem ⊖ fill) +ℤ r.val nought ≤ℤ more
    one_bucket_less rem tot bucket fill more (inl e) h enough = rw e (
        omega
          (arith, nought_parts r, sub_parts x rem rem, +ℤ_parts (r.val (rem ⊖ rem)) (r.val nought)))
    one_bucket_less rem tot bucket fill more (inr e) h enough = rw e (
        omega (
          arith,
          nought_parts r,
          sub_parts x rem (bucket ⊖ tot),
          sub_parts x bucket tot,
          +ℤ_parts (r.val (rem ⊖ (bucket ⊖ tot))) (r.val nought),
          +ℤ_parts (r.val rem) (r.val tot),
          +ℤ_parts (r.val bucket) more,
        ))

    -- A round that does not fill the bucket takes everything.
    all_taken :
        (rem tot bucket fill : F)
        → fill ≡ rem ⊎ fill ≡ bucket ⊖ tot
        → tot ⊕ fill ≺ bucket ⊖ lit 1 12
        → rem ⊖ fill ≼ lit 1 15
    all_taken rem tot bucket fill (inl e) h =
        rw e (omega (arith, sub_parts x rem rem, lit_nonneg r 1 15))
    all_taken rem tot bucket fill (inr e) h =
        let h' = rw e at h in
        absurd (
          omega (
            arith,
            h',
            add_parts x tot (bucket ⊖ tot),
            sub_parts x bucket tot,
            sub_parts x bucket (lit 1 12),
            lit_nonneg r 1 12,
          ))

    total_vol-IsNonneg : (c : VpinCalculator F) → IsPoured c → IsNonneg c.current_total_vol
    total_vol-IsNonneg c i = omega (arith, i.buy_nonneg, i.sell_nonneg, i.split)

    space-IsNonneg :
        (c : VpinCalculator F) (rem : F) → IsCalculator c → lit 1 15 ≺ rem → IsNonneg (space c rem)
    space-IsNonneg c rem i h =
        let low =
          le-fmin rem (c.bucket_size ⊖ c.current_total_vol) nought
            (omega (arith, nought_parts r, lit_nonneg r 1 15))
            (omega (
              arith,
              nought_parts r,
              i.unfilled,
              sub_parts x c.bucket_size (lit 1 12),
              sub_parts x c.bucket_size c.current_total_vol,
              lit_nonneg r 1 12,
            )) in
        omega (arith, nought_parts r, low)

    -- The loop on a calculator of buckets of size `b`.
    rounds-Returns :
        (b : F) (n : ℕ) (c : VpinCalculator F) (d : Direction) (rem : F) (res : Option F)
        → c.bucket_size ≡ b
        → nought ≺ b ⊖ lit 1 12
        → IsCalculator c
        → r.val rem +ℤ r.val c.current_total_vol ≤ℤ total (equal_trades n b)
        → Returns b (fill_buckets (suc n) c d rem res)
    unfolding total equal_trades
    rounds-Returns b zero c d rem res s room i enough = elim (Bool-cases (lit 1 15 <? rem)) [
      | inl e ↦
          let above = lt→≺ (lit 1 15) rem e in
          absurd (
            omega (
              arith,
              lit_nonneg r 1 15,
              total_vol-IsNonneg c i.poured,
              +ℤ_parts (r.val rem) (r.val c.current_total_vol),
            ))
      | inr e ↦ rw (fill_buckets_stops zero c d rem res e) (returned c res i s)
    ]
    rounds-Returns b (suc k) c d rem res s room i enough = elim (Bool-cases (lit 1 15 <? rem)) [
      | inl e ↦
          let fill = space c rem in
          let above = lt→≺ (lit 1 15) rem e in
          let whole = pour c d fill in
          let ip = pour-IsPoured x c d fill i.poured (space-IsNonneg c rem i above) in
          let which = (fmin_lem rem (c.bucket_size ⊖ c.current_total_vol)).2 in
          let size : whole.bucket_size ≡ b = pour_bucket c d fill ∙ s in
          elim (Bool-cases (is_full c whole)) [
            | inl full ↦ rw (fill_buckets_seals (suc k) c d rem res e full) (
                rounds-Returns b k (seal whole) d (rem ⊖ fill)
                  (some (mean_imbalance (seal whole).buckets)) (seal_bucket whole ∙ size) room
                  (seal-IsCalculator x whole (rw size room) ip)
                  (rw (seal_total whole) (
                    one_bucket_less rem c.current_total_vol c.bucket_size fill
                      (total (equal_trades k b)) which
                      (equal_nonneg k b (
                        omega (
                          arith,
                          nought_parts r,
                          room,
                          sub_parts x b (lit 1 12),
                          lit_nonneg r 1 12,
                        )))
                      (rw s enough))))
            | inr more ↦
                let low =
                  not_le→≺ {F = F} (c.bucket_size ⊖ lit 1 12) whole.current_total_vol more in
                let taken =
                  all_taken rem c.current_total_vol c.bucket_size fill which
                    (rw (← pour_total c d fill) low) in
                rw
                  (
                    fill_buckets_pours (suc k) c d rem res e more,
                    fill_buckets_stops k whole d (rem ⊖ fill) res
                        (≼→not_lt {F = F} (lit 1 15) (rem ⊖ fill) taken),
                  )
                  (returned whole res
                    (record { poured = ip; unfilled = rw (pour_bucket c d fill) low }) size)
          ]
      | inr e ↦ rw (fill_buckets_stops (suc k) c d rem res e) (returned c res i s)
    ]

    -- A calculator whose buckets are larger than 1e-12, with its volumes in order, takes a trade of
    -- any price and direction in `n + 1` rounds, where `n` buckets hold what is in progress and the
    -- volume together: fuel that grows with the volume is enough. Afterwards its volumes are in order
    -- again, every bucket of the window has an imbalance between 0 and 1, and the window holds no
    -- more buckets than its size, sums being exact.
    pub add_trade-Returns :
        (n : ℕ) (c : VpinCalculator F) (price volume prev_price : F)
        → nought ≺ c.bucket_size ⊖ lit 1 12
        → IsCalculator c
        → r.val volume +ℤ r.val c.current_total_vol ≤ℤ total (equal_trades n c.bucket_size)
        → Returns c.bucket_size (add_trade (suc n) c price volume prev_price)
    unfolding add_trade
    add_trade-Returns n c price volume prev_price room i enough =
        rounds-Returns c.bucket_size n _ _ volume none refl room
          (record {
            poured = record {
              fits = i.poured.fits;
              shares = i.poured.shares;
              buy_nonneg = i.poured.buy_nonneg;
              sell_nonneg = i.poured.sell_nonneg;
              split = i.poured.split;
            };
            unfilled = i.unfilled;
          })
          enough
