-- ===== src/Market/LobReplay/Cells.antt =====
-- src/market/lob_replay.rs: the header and the cells of a file of snapshots, and its errors.
use strata_exec.Prelude.{
  ℕ, zero, suc, ◌+◌, ◌-◌, ◌/◌, ◌%◌, ◌^◌, Bool, true, false, ◌&&◌, Option, none, some, List, [], ◌∷◌,
  ◌++◌, map, get_elem?, if◌then◌else◌, leb,
}
use strata_exec.Prelude.Int.{ℤ, pos, negsuc, leb_ℤ}
use strata_exec.Prelude.Text.{
  Text, codes, same, trim, parse_u64, strip_prefix, strip_suffix, position,
}

-- What `csv::Reader` gives of a file: its header, and its records, `none` where a row is malformed.
pub record Csv : Type 0 where
  pub headers : List Text
  pub records : List (Option (List Text))

-- The errors of `from_csv`.
pub data ParseError : Type 0 where
  unreadable : ParseError
  missing_column : Text → ParseError
  unrecognised_timestamp : Text → ParseError
  no_valid_snapshots : ParseError

pub record TallRow (F : Type 0) : Type 0 where
  pub timestamp : List ℕ
  pub percentage : ℤ
  pub cum_depth : F
  pub cum_notional : F

-- The columns of the tall layout.
pub record TallColumns : Type 0 where
  pub ts_col : ℕ
  pub pct_col : ℕ
  pub depth_col : ℕ
  pub notional_col : ℕ

abbrev pub has_column : List Text → Text → Bool
has_column headers name = elim (position name headers) [ none ↦ false | some i ↦ true ]

unfoldable pub is_binance_tall_format : List Text → Bool
unfolding position
is_binance_tall_format headers =
    has_column headers (codes "percentage")
    && has_column headers (codes "depth")
    && has_column headers (codes "notional")

abbrev pub col_idx : List Text → Text → Option ℕ
col_idx headers name = position name headers

-- `i64 as u64`
abbrev pub as_u64 : ℤ → ℕ
as_u64 (pos n) = n % 2 ^ 64
as_u64 (negsuc n) = 2 ^ 64 - 1 - n % 2 ^ 64

-- A record filed with those of the same time stamp, in the order in which the stamps came.
unfoldable pub file_row :
    {F : Type 0} → TallRow F → List (List ℕ × List (TallRow F)) → List (List ℕ × List (TallRow F))
unfolding same
file_row row [] = (row.timestamp, row ∷ []) ∷ []
file_row row ((ts, rows) ∷ groups) =
    let rest = file_row row groups in
    if same ts row.timestamp then (ts, rows ++ row ∷ []) ∷ groups else (ts, rows) ∷ rest

-- `sort_by_key`, which is stable.
unfoldable pub insert_by {ℓ} : {A : Type ℓ} → (A → ℤ) → A → List A → List A
insert_by key a [] = a ∷ []
insert_by key a (x ∷ xs) =
    let rest = insert_by key a xs in if leb_ℤ (key a) (key x) then a ∷ x ∷ xs else x ∷ rest

unfoldable pub sort_by_key {ℓ} : {A : Type ℓ} → (A → ℤ) → List A → List A
unfolding insert_by
sort_by_key key [] = []
sort_by_key key (x ∷ xs) = insert_by key x (sort_by_key key xs)

-- The decimal digits, of which a `usize` has at most 20, before the text `acc`.
unfoldable pub show_digits : ℕ → ℕ → Text → Text
show_digits zero n acc = acc
show_digits (suc fuel) n acc =
    let here = (b'0' + n % 10) ∷ acc in
    let rest = show_digits fuel (n / 10) here in if leb n 9 then here else rest

-- The pair of a header `<side><n>_p`, with n.
unfoldable pub level_pair : List Text → ℕ → ℕ → Text → Option (ℕ × ℕ × ℕ)
unfolding strip_prefix strip_suffix parse_u64 position show_digits
level_pair headers side ci h = elim (strip_prefix (side ∷ []) h) [
  | none ↦ none
  | some rest ↦ elim (strip_suffix (codes "_p") rest) [
    | none ↦ none
    | some n_str ↦ elim (parse_u64 n_str) [
      | none ↦ none
      | some n ↦ elim (position (side ∷ show_digits 20 n (codes "_q")) headers) [
        | none ↦ none
        | some qi ↦ some (n, ci, qi)
      ]
    ]
  ]
]

unfoldable pub pairs_from : List Text → ℕ → ℕ → List Text → List (ℕ × ℕ × ℕ)
unfolding level_pair
pairs_from headers side ci [] = []
pairs_from headers side ci (h ∷ hs) = elim (level_pair headers side ci h) [
  | none ↦ pairs_from headers side (suc ci) hs
  | some pair ↦ pair ∷ pairs_from headers side (suc ci) hs
]

abbrev columns : ℕ × ℕ × ℕ → ℕ × ℕ
columns (n, ci, qi) = (ci, qi)

unfoldable pub collect_level_pairs : List Text → ℕ → List (ℕ × ℕ)
unfolding pairs_from sort_by_key
collect_level_pairs headers side =
    map columns (sort_by_key (λ p. pos p.0) (pairs_from headers side 0 headers))

abbrev pub cell : {A : Type 0} → List Text → ℕ → (List ℕ → Option A) → Option A
cell record_ col parse = elim (get_elem? record_ col) [ none ↦ none | some v ↦ parse (trim v) ]
