-- ===== src/Analytics/Breakdown/Weights.antt =====
-- src/analytics/metrics.rs: what counting and sorting the regime labels keeps of the counts.
use strata_exec.Prelude.{
  ℕ, suc, ◌+◌, ◌≢◌, Bool, true, false, ◌&&◌, ◌≡◌, refl, List, [], ◌∷◌, All, equal→eq, ◌==◌,
  if◌then◌else◌, inl, inr, Bool-cases, arith,
}
use strata_exec.Prelude.Text.{Text, same}
use strata_exec.Analytics.Breakdown.{insert_by, sort_by, ranked, change_entry, count_labels}

equal_self : (n : ℕ) → (n == n) ≡ true
equal_self n = ground arith

both_true : (a b : Bool) → (a && b) ≡ true → (a ≡ true) × (b ≡ true)
both_true true b h = (refl, h)
both_true false b h = ground arith

same→eq : (s t : Text) → same s t ≡ true → s ≡ t
unfolding same
same→eq [] [] h = refl
same→eq [] (d ∷ t) h = ground arith
same→eq (c ∷ s) [] h = ground arith
same→eq (c ∷ s) (d ∷ t) h =
    let k = both_true (c == d) (same s t) h in rw (equal→eq c d k.0, same→eq s t k.1) refl

pub same_refl : (s : Text) → same s s ≡ true
unfolding same
same_refl [] = refl
same_refl (c ∷ s) = rw (equal_self c, same_refl s) refl

pub different→ne : (s t : Text) → same s t ≡ false → s ≢ t
different→ne s t h e = absurd (apart (rw e at h) (same_refl t))
  where
    apart : {b : Bool} → b ≡ false → b ≡ true → ⊥
    apart p q = cc

pub ne→different : (s t : Text) → s ≢ t → same s t ≡ false
ne→different s t h = elim (Bool-cases (same s t)) [ inl e ↦ absurd (h (same→eq s t e)) | inr e ↦ e ]

-- How many of the labels pass a test.
abbrev pub occurrences : (Text → Bool) → List Text → ℕ
occurrences p [] = 0
occurrences p (l ∷ ls) = (if p l then 1 else 0) + occurrences p ls

-- The counts of the entries whose label passes a test, added up.
abbrev pub weight : (Text → Bool) → List (Text × ℕ) → ℕ
weight p [] = 0
weight p ((l, n) ∷ es) = (if p l then n else 0) + weight p es

one_more :
    (p : Text → Bool) (l : Text) (n rest : ℕ)
    → (if p l then suc n else 0) + rest ≡ (if p l then 1 else 0) + ((if p l then n else 0) + rest)
one_more p l n rest = elim (Bool-cases (p l)) [
  | inl e ↦ rw e (omega arith)
  | inr e ↦ rw e (omega arith)
]

change_entry-weight :
    (p : Text → Bool) (label : Text) (es : List (Text × ℕ))
    → weight p (change_entry suc 0 label es) ≡ (if p label then 1 else 0) + weight p es
unfolding change_entry
change_entry-weight p label [] = refl
change_entry-weight p label ((l, n) ∷ es) = elim (Bool-cases (same label l)) [
  | inl e ↦ rw (e, same→eq label l e) (one_more p l n (weight p es))
  | inr e ↦ rw e (omega (arith, change_entry-weight p label es))
]

pub count_labels-weight :
    (p : Text → Bool) (es : List (Text × ℕ)) (labels : List Text)
    → weight p (count_labels es labels) ≡ weight p es + occurrences p labels
unfolding count_labels
count_labels-weight p es [] = omega arith
count_labels-weight p es (l ∷ ls) =
    omega (arith, count_labels-weight p (change_entry suc 0 l es) ls, change_entry-weight p l es)

insert_by-weight :
    (p : Text → Bool) (less : Text × ℕ → Text × ℕ → Bool) (e : Text × ℕ) (es : List (Text × ℕ))
    → weight p (insert_by less e es) ≡ weight p (e ∷ es)
unfolding insert_by
insert_by-weight p less e [] = refl
insert_by-weight p less e (d ∷ ds) = elim (Bool-cases (less d e)) [
  | inl k ↦ rw k (omega (arith, insert_by-weight p less e ds))
  | inr k ↦ rw k refl
]

pub sort_by-weight :
    (p : Text → Bool) (less : Text × ℕ → Text × ℕ → Bool) (es : List (Text × ℕ))
    → weight p (sort_by less es) ≡ weight p es
unfolding sort_by
sort_by-weight p less [] = refl
sort_by-weight p less (e ∷ es) =
    omega (arith, insert_by-weight p less e (sort_by less es), sort_by-weight p less es)

abbrev pub by_count : Text × ℕ → Text × ℕ → Bool
by_count = ranked (λ count. count)

pub All-insert_by :
    (P : Text × ℕ → Type 0) (e : Text × ℕ) (es : List (Text × ℕ))
    → P e
    → All P es
    → All P (insert_by by_count e es)
unfolding insert_by
All-insert_by P e [] h hs = (h, tt)
All-insert_by P e (d ∷ ds) h hs = elim (Bool-cases (by_count d e)) [
  | inl k ↦ rw k (hs.0, All-insert_by P e ds h hs.1)
  | inr k ↦ rw k (h, hs)
]
