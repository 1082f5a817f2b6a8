-- ===== src/Analytics/Breakdown/Counts.antt =====
-- src/analytics/metrics.rs: the distribution of the regime labels.
use strata_exec.Prelude.{
  ℕ, ◌≤◌, sym, ◌∙◌, Bool, true, false, ◌≡◌, refl, List, [], ◌∷◌, length, map, All, All-map, inl,
  inr, Bool-cases, arith,
}
use strata_exec.Prelude.Text.{Text, same}
use strata_exec.Float.{Float, ◌⊘◌}
use strata_exec.Analytics.Metrics.{ExecutionMetrics}
use strata_exec.Analytics.Breakdown.{insert_by, sort_by, ranked, count_labels, regime_distribution}
use strata_exec.Analytics.Breakdown.Weights.{
  occurrences, weight, count_labels-weight, sort_by-weight, by_count, All-insert_by,
}
use strata_exec.Analytics.Breakdown.Distinct.{
  AreDistinct, count_labels-AreDistinct, sort_by-AreDistinct, weight_of_entry,
}

-- The counts do not rise along the list.
abbrev pub Descends : List (Text × ℕ) → Type 0
Descends [] = Unit
Descends (e ∷ es) = All (λ d. d.1 ≤ e.1) es × Descends es

ranked→le : (a b : Text × ℕ) → by_count a b ≡ true → b.1 ≤ a.1
unfolding ranked
ranked→le a b h = ground arith

not_ranked→le : (a b : Text × ℕ) → by_count a b ≡ false → a.1 ≤ b.1
unfolding ranked
not_ranked→le a b h = ground arith

insert_by-Descends :
    (e : Text × ℕ) (es : List (Text × ℕ)) → Descends es → Descends (insert_by by_count e es)
unfolding insert_by
insert_by-Descends e [] h = (tt, tt)
insert_by-Descends e (d ∷ ds) h = elim (Bool-cases (by_count d e)) [
  | inl k ↦
      rw k (All-insert_by (λ c. c.1 ≤ d.1) e ds (ranked→le d e k) h.0, insert_by-Descends e ds h.1)
  | inr k ↦
      let le = not_ranked→le d e k in
      rw k ((le, All-map (λ c. c.1 ≤ d.1) (λ c. c.1 ≤ e.1) ds (λ c j. omega (arith, j, le)) h.0), h)
]

sort_by-Descends : (es : List (Text × ℕ)) → Descends (sort_by by_count es)
unfolding sort_by
sort_by-Descends [] = tt
sort_by-Descends (e ∷ es) = insert_by-Descends e (sort_by by_count es) (sort_by-Descends es)

counted :
    (labels : List Text) (p : Text → Bool)
    → weight p (sort_by by_count (count_labels [] labels)) ≡ occurrences p labels
counted labels p =
    omega
      (arith, sort_by-weight p by_count (count_labels [] labels), count_labels-weight p [] labels)

-- The counts of a distribution, without the fractions.
abbrev pub counts : {F : Type 0} → List (Text × ℕ × F) → List (Text × ℕ)
counts [] = []
counts ((label, n, fraction) ∷ ds) = (label, n) ∷ counts ds

abbrev pub with_share : {F : Type 0} ⦃f : Float F⦄ → ℕ → Text × ℕ → Text × ℕ × F
with_share ⦃f = f⦄ all (label, n) = (label, n, f.of_usize n ⊘ f.of_usize all)

counts-with_share :
    (F : Type 0) ⦃f : Float F⦄ (all : ℕ) (es : List (Text × ℕ))
    → counts (map (with_share {F = F} all) es) ≡ es
counts-with_share F all [] = refl
counts-with_share F all (e ∷ es) = rw (counts-with_share F all es) refl

module _ {F : Type 0} ⦃f : Float F⦄ where
  -- The distribution of the regime labels, whatever was recorded. No label has two entries; each entry's
  -- count is the number of times that its label was recorded, and its fraction that number over the number
  -- of all labels; the counts of the labels that pass any test add up to the number of recorded
  -- labels that pass it, so that no label is left out; and the counts do not rise along the list.
  pub regime_distribution_lem :
      (m : ExecutionMetrics F) (p : Text → Bool)
      → let labels = m.regime_at_execution in
        let out = counts (regime_distribution m) in
        AreDistinct out
        × All (λ e. e.1 ≡ occurrences (same e.0) labels) out
        × (regime_distribution m ≡ map (with_share (length labels)) out)
        × (weight p out ≡ occurrences p labels)
        × Descends out
  unfolding regime_distribution
  regime_distribution_lem m p =
      let labels = m.regime_at_execution in
      let es = sort_by by_count (count_labels [] labels) in
      let distinct =
        sort_by-AreDistinct (count_labels [] labels) (count_labels-AreDistinct [] labels tt) in
      rw (counts-with_share F (length labels) es) (
        distinct,
        All-map _ _ es (λ e h. sym h ∙ counted labels (same e.0)) (weight_of_entry es distinct),
        refl,
        counted labels p,
        sort_by-Descends (count_labels [] labels),
      )
