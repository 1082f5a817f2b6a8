-- ===== src/Prelude/Text.antt =====
-- The operations of `str` that the program calls on header names, cells and arguments. A text is the
-- list of its code points.
use Prim.Native.Char.{code}
use Prim.Native.String.{String}
use strata_exec.Prelude.{
  ℕ, zero, suc, ◌+◌, ◌-◌, ◌*◌, ◌^◌, Bool, true, false, ◌&&◌, ◌||◌, Option, none, some, List, [],
  ◌∷◌, map, leb, ◌==◌, if◌then◌else◌,
}
use strata_exec.Prelude.Int.{ℤ, pos, negsuc}

abbrev pub Text : Type 0
Text = List ℕ

abbrev pub codes : String → List ℕ
codes String.[] = []
codes (String.◌∷◌ c s) = code c ∷ codes s

unfoldable pub same : List ℕ → List ℕ → Bool
same [] [] = true
same [] (d ∷ t) = false
same (c ∷ s) [] = false
same (c ∷ s) (d ∷ t) = let rest = same s t in (c == d) && rest

abbrev pub between : ℕ → ℕ → ℕ → Bool
between lo hi c = leb lo c && leb c hi

-- `char::is_whitespace`: the code points with the property White_Space.
unfoldable pub is_whitespace : ℕ → Bool
is_whitespace c =
    between 9 13 c
    || c == 32
    || c == 133
    || c == 160
    || c == 5760
    || between 8192 8202 c
    || between 8232 8233 c
    || c == 8239
    || c == 8287
    || c == 12288

unfoldable pub trim_start : List ℕ → List ℕ
unfolding is_whitespace
trim_start [] = []
trim_start (c ∷ s) = let rest = trim_start s in if is_whitespace c then rest else c ∷ s

-- A character before the text that is left of the rest once its end is trimmed.
abbrev pub keep_inner : Bool → ℕ → List ℕ → List ℕ
keep_inner white c (d ∷ s) = c ∷ d ∷ s
keep_inner true c [] = []
keep_inner false c [] = c ∷ []

unfoldable pub trim_end : List ℕ → List ℕ
unfolding is_whitespace
trim_end [] = []
trim_end (c ∷ s) = keep_inner (is_whitespace c) c (trim_end s)

unfoldable pub trim : List ℕ → List ℕ
unfolding trim_start trim_end
trim s = trim_end (trim_start s)

-- `to_lowercase` on the ASCII letters.
unfoldable pub lower : ℕ → ℕ
lower c = if between b'A' b'Z' c then c + 32 else c

unfoldable pub to_lowercase : List ℕ → List ℕ
unfolding lower
to_lowercase s = map lower s

-- The digits from the left onto what is read so far; `none` at any other character.
unfoldable pub read_digits : ℕ → List ℕ → Option ℕ
read_digits acc [] = some acc
read_digits acc (c ∷ s) =
    let rest = read_digits (acc * 10 + (c - b'0')) s in if between b'0' b'9' c then rest else none

-- At least one digit.
unfoldable pub read_number : List ℕ → Option ℕ
unfolding read_digits
read_number [] = none
read_number (c ∷ s) = read_digits 0 (c ∷ s)

abbrev pub at_most : ℕ → Option ℕ → Option ℕ
at_most max none = none
at_most max (some n) = if leb n max then some n else none

-- `parse::<u64>()`, which takes a sign `+`; `usize` has the same 64 bits.
unfoldable pub parse_u64 : List ℕ → Option ℕ
unfolding read_number
parse_u64 [] = none
parse_u64 (c ∷ s) = at_most (2 ^ 64 - 1) (if c == b'+' then read_number s else read_number (c ∷ s))

abbrev pub negated : ℕ → ℤ
negated zero = pos 0
negated (suc n) = negsuc n

abbrev pub signed : Bool → Option ℕ → Option ℤ
signed minus none = none
signed true (some n) = some (negated n)
signed false (some n) = some (pos n)

-- `parse::<i32>()`
unfoldable pub parse_i32 : List ℕ → Option ℤ
unfolding read_number
parse_i32 [] = none
parse_i32 (c ∷ s) =
    let minus = c == b'-' in
    signed minus (
      at_most (if minus then 2 ^ 31 else 2 ^ 31 - 1)
        (if minus || c == b'+' then read_number s else read_number (c ∷ s)))

unfoldable pub strip_prefix : List ℕ → List ℕ → Option (List ℕ)
strip_prefix [] s = some s
strip_prefix (p ∷ ps) [] = none
strip_prefix (p ∷ ps) (c ∷ s) = let rest = strip_prefix ps s in if p == c then rest else none

abbrev pub before : ℕ → Option (List ℕ) → Option (List ℕ)
before c none = none
before c (some s) = some (c ∷ s)

unfoldable pub strip_suffix : List ℕ → List ℕ → Option (List ℕ)
unfolding same
strip_suffix p [] = if same [] p then some [] else none
strip_suffix p (c ∷ s) =
    let rest = before c (strip_suffix p s) in if same (c ∷ s) p then some [] else rest

-- `iter().position(|h| h == name)`
unfoldable pub position : List ℕ → List (List ℕ) → Option ℕ
unfolding same
position name [] = none
position name (h ∷ hs) =
    let rest = position name hs in
    if same h name then some 0 else elim rest [ none ↦ none | some i ↦ some (suc i) ]
