-- ===== src/Analytics/Breakdown.antt =====
-- src/analytics/metrics.rs: costs split by the flow imbalance and by the regime at each trade. A `HashMap`
-- from labels is a list of entries; what is made of it is sorted by count and label.
pub mod Weights
pub mod Distinct
pub mod Counts
use Prim.Native.Nat.{min}
use strata_exec.Prelude.{
  ℕ, zero, suc, Bool, true, false, ◌||◌, ◌&&◌, Option, none, some, List, [], ◌∷◌, length, map,
  retain, ltb, ◌==◌, if◌then◌else◌,
}
use strata_exec.Prelude.Text.{Text, same}
use strata_exec.Float.{Float, ◌⊕◌, ◌⊗◌, ◌⊘◌, ◌<?◌, lit, nought, fabs}
use strata_exec.Analytics.Metrics.{ExecutionMetrics, no_notional}

-- What was added up below and above a threshold, and of how many trades.
pub record Split (F : Type 0) : Type 0 where
  pub low_cost : F
  pub high_cost : F
  pub low_count : ℕ
  pub high_count : ℕ

-- The order of two texts: by the first code point that differs.
unfoldable pub text_less : Text → Text → Bool
text_less [] [] = false
text_less [] (d ∷ t) = true
text_less (c ∷ s) [] = false
text_less (c ∷ s) (d ∷ t) = let rest = text_less s t in if c == d then rest else ltb c d

-- An element into a sorted list, before those that are not less than it.
unfoldable pub insert_by {ℓ} : {A : Type ℓ} → (A → A → Bool) → A → List A → List A
insert_by less x [] = x ∷ []
insert_by less x (y ∷ ys) =
    let rest = insert_by less x ys in if less y x then y ∷ rest else x ∷ y ∷ ys

-- `Vec::sort_by`, a stable sort.
unfoldable pub sort_by {ℓ} : {A : Type ℓ} → (A → A → Bool) → List A → List A
unfolding insert_by
sort_by less [] = []
sort_by less (x ∷ xs) = insert_by less x (sort_by less xs)

-- More often first, and by label where equally often.
unfoldable pub ranked : {V : Type 0} → (V → ℕ) → Text × V → Text × V → Bool
unfolding text_less
ranked count a b = ltb (count b.1) (count a.1) || ((count a.1 == count b.1) && text_less a.0 b.0)

-- `*map.entry(label).or_insert(start)`, changed in place.
unfoldable pub change_entry : {V : Type 0} → (V → V) → V → Text → List (Text × V) → List (Text × V)
unfolding same
change_entry change start label [] = (label, change start) ∷ []
change_entry change start label (e ∷ es) =
    let rest = change_entry change start label es in
    if same label e.0 then (e.0, change e.1) ∷ es else e ∷ rest

unfoldable pub count_labels : List (Text × ℕ) → List Text → List (Text × ℕ)
unfolding change_entry
count_labels es [] = es
count_labels es (label ∷ labels) = count_labels (change_entry suc 0 label es) labels

module _ {F : Type 0} ⦃f : Float F⦄ where
  unfoldable pub regime_distribution : ExecutionMetrics F → List (Text × ℕ × F)
  unfolding count_labels sort_by ranked
  regime_distribution m =
      map (λ e. (e.0, e.1, f.of_usize e.1 ⊘ f.of_usize (length m.regime_at_execution)))
        (sort_by (ranked (λ count. count)) (count_labels [] m.regime_at_execution))

  abbrev pub add_cost : F → F × ℕ → F × ℕ
  add_cost cost (sum, count) = (sum ⊕ cost, suc count)

  abbrev pub no_cost : F × ℕ
  no_cost = (nought, 0)

  -- The costs and the counts by label, at each index below the shorter length.
  unfoldable pub cost_labels : List (Text × (F × ℕ)) → List Text → List F → List (Text × (F × ℕ))
  unfolding change_entry
  cost_labels es [] costs = es
  cost_labels es (label ∷ labels) [] = es
  cost_labels es (label ∷ labels) (cost ∷ costs) =
      cost_labels (change_entry (add_cost cost) no_cost label es) labels costs

  unfoldable pub is_by_regime : ExecutionMetrics F → List (Text × F × ℕ)
  unfolding cost_labels sort_by ranked fabs
  is_by_regime m =
      if (min (length m.regime_at_execution) (length m.per_trade_cost) == 0) || no_notional m
      then []
      else map (λ (e : Text × (F × ℕ)). (e.0, e.1.0 ⊘ m.initial_notional ⊗ lit 100 0, e.1.1))
          (sort_by (ranked (λ (e : F × ℕ). e.1))
            (cost_labels [] m.regime_at_execution m.per_trade_cost))

  unfoldable pub split_costs : F → Split F → List F → List F → Split F
  split_costs threshold s [] costs = s
  split_costs threshold s (vpin ∷ vpins) [] = s
  split_costs threshold s (vpin ∷ vpins) (cost ∷ costs) =
      split_costs threshold
        (if threshold <? vpin
          then record s { high_cost = s.high_cost ⊕ cost; high_count = suc s.high_count }
          else record s { low_cost = s.low_cost ⊕ cost; low_count = suc s.low_count })
        vpins costs

  abbrev pub percent_if_any : ℕ → F → F → Option F
  percent_if_any zero cost notional = none
  percent_if_any (suc count) cost notional = some (cost ⊘ notional ⊗ lit 100 0)

  abbrev pub percents_of : F → Split F → Option F × Option F
  percents_of notional s = (
    percent_if_any s.low_count s.low_cost notional,
    percent_if_any s.high_count s.high_cost notional,
  )

  unfoldable pub conditional_shortfall_percent : ExecutionMetrics F → F → Option F × Option F
  unfolding split_costs fabs
  conditional_shortfall_percent m threshold =
      if (length m.vpin_at_execution == 0) || no_notional m
      then (none, none)
      else percents_of m.initial_notional (
          split_costs threshold
            (record { low_cost = nought; high_cost = nought; low_count = 0; high_count = 0 })
            m.vpin_at_execution m.per_trade_cost)

  unfoldable pub high_vpin_trade_fraction : ExecutionMetrics F → F → F
  unfolding retain
  high_vpin_trade_fraction m threshold =
      let n = length m.vpin_at_execution in
      if n == 0
      then nought
      else f.of_usize (length (retain (λ v. threshold <? v) m.vpin_at_execution)) ⊘ f.of_usize n
