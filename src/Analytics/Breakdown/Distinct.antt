-- ===== src/Analytics/Breakdown/Distinct.antt =====
-- src/analytics/metrics.rs: the regime labels are counted in one entry each.
use strata_exec.Prelude.{
  ℕ, suc, ◌≢◌, sym, ◌≡◌, refl, List, [], ◌∷◌, All, inl, inr, Bool-cases, arith,
}
use strata_exec.Prelude.Text.{Text, same}
use strata_exec.Analytics.Breakdown.{insert_by, sort_by, change_entry, count_labels}
use strata_exec.Analytics.Breakdown.Weights.{
  same_refl, different→ne, ne→different, weight, by_count, All-insert_by,
}

-- No label has two entries.
abbrev pub AreDistinct : List (Text × ℕ) → Type 0
AreDistinct [] = Unit
AreDistinct (e ∷ es) = All (λ d. e.0 ≢ d.0) es × AreDistinct es

-- An entry's label changes with no count, and a new entry has the label that is counted.
All-change_entry :
    (P : Text → Type 0) (label : Text) (es : List (Text × ℕ))
    → P label
    → All (λ e. P e.0) es
    → All (λ e. P e.0) (change_entry suc 0 label es)
unfolding change_entry
All-change_entry P label [] h hs = (h, tt)
All-change_entry P label (e ∷ es) h hs = elim (Bool-cases (same label e.0)) [
  | inl k ↦ rw k hs
  | inr k ↦ rw k (hs.0, All-change_entry P label es h hs.1)
]

change_entry-AreDistinct :
    (label : Text) (es : List (Text × ℕ))
    → AreDistinct es
    → AreDistinct (change_entry suc 0 label es)
unfolding change_entry
change_entry-AreDistinct label [] h = (tt, tt)
change_entry-AreDistinct label (e ∷ es) h = elim (Bool-cases (same label e.0)) [
  | inl k ↦ rw k h
  | inr k ↦ rw k (
    All-change_entry (λ l. e.0 ≢ l) label es (λ p. different→ne label e.0 k (sym p)) h.0,
    change_entry-AreDistinct label es h.1,
  )
]

pub count_labels-AreDistinct :
    (es : List (Text × ℕ)) (labels : List Text)
    → AreDistinct es
    → AreDistinct (count_labels es labels)
unfolding count_labels
count_labels-AreDistinct es [] h = h
count_labels-AreDistinct es (l ∷ ls) h =
    count_labels-AreDistinct (change_entry suc 0 l es) ls (change_entry-AreDistinct l es h)

insert_by-AreDistinct :
    (e : Text × ℕ) (es : List (Text × ℕ))
    → All (λ d. e.0 ≢ d.0) es
    → AreDistinct es
    → AreDistinct (insert_by by_count e es)
unfolding insert_by
insert_by-AreDistinct e [] a h = (tt, tt)
insert_by-AreDistinct e (d ∷ ds) a h = elim (Bool-cases (by_count d e)) [
  | inl k ↦ rw k (
    All-insert_by (λ c. d.0 ≢ c.0) e ds (λ p. a.0 (sym p)) h.0,
    insert_by-AreDistinct e ds a.1 h.1,
  )
  | inr k ↦ rw k (a, h)
]

All-sort_by :
    (P : Text × ℕ → Type 0) (es : List (Text × ℕ)) → All P es → All P (sort_by by_count es)
unfolding sort_by
All-sort_by P [] h = tt
All-sort_by P (e ∷ es) h = All-insert_by P e (sort_by by_count es) h.0 (All-sort_by P es h.1)

pub sort_by-AreDistinct :
    (es : List (Text × ℕ)) → AreDistinct es → AreDistinct (sort_by by_count es)
unfolding sort_by
sort_by-AreDistinct [] h = tt
sort_by-AreDistinct (e ∷ es) h =
    insert_by-AreDistinct e (sort_by by_count es) (All-sort_by (λ d. e.0 ≢ d.0) es h.0)
      (sort_by-AreDistinct es h.1)

-- A label that no entry has weighs nothing.
weight_absent :
    (label : Text) (es : List (Text × ℕ)) → All (λ e. label ≢ e.0) es → weight (same label) es ≡ 0
weight_absent label [] h = refl
weight_absent label ((l, n) ∷ es) h =
    rw (ne→different label l h.0) (omega (arith, weight_absent label es h.1))

-- With one entry to a label, what a label weighs is its count.
pub weight_of_entry :
    (es : List (Text × ℕ)) → AreDistinct es → All (λ e. weight (same e.0) es ≡ e.1) es
weight_of_entry [] h = tt
weight_of_entry ((l, n) ∷ es) h = (
  rw (same_refl l) (omega (arith, weight_absent l es h.0)),
  later l n es es h.0 (weight_of_entry es h.1),
)
  where
    later :
        (l : Text) (n : ℕ) (whole es : List (Text × ℕ))
        → All (λ e. l ≢ e.0) es
        → All (λ e. weight (same e.0) whole ≡ e.1) es
        → All (λ e. weight (same e.0) ((l, n) ∷ whole) ≡ e.1) es
    later l n whole [] a h = tt
    later l n whole (e ∷ es) a h = (
      rw (ne→different e.0 l (λ p. a.0 (sym p))) (omega (arith, h.0)),
      later l n whole es a.1 h.1,
    )
