-- ===== src/Matcher/Range.antt =====
-- internal/engine/matcher/range.go: RangeMatcher, for "min-max" with signed bounds.
use koala_v.Prelude.{
  ℕ, suc, ◌==◌, leb_ℤ, ℤ, Text, take, drop, [], ◌∷◌, Bool, false, ◌&&◌, Option, none, some,
  if◌then◌else◌,
}
use koala_v.Matcher.Number.{parse_int}

-- The loop over the bytes from an index on.
unfoldable pub index_from : ℕ → Text → Option ℕ
index_from i [] = none
index_from i (c ∷ cs) = if c == b'-' then some i else index_from (suc i) cs

-- A leading minus sign is skipped.
abbrev pub start_index : Text → ℕ
start_index [] = 0
start_index (c ∷ cs) = if c == b'-' then 1 else 0

-- `none` is the -1 of the code.
unfoldable pub find_range_dash_index : Text → Option ℕ
unfolding index_from
find_range_dash_index pattern =
    let start = start_index pattern in index_from start (drop start pattern)

unfoldable pub parse_range : Text → Option (ℤ × ℤ)
unfolding find_range_dash_index
parse_range pattern = elim (find_range_dash_index pattern) [
  | none ↦ none
  | some i ↦ elim (parse_int (take i pattern)) [
    | none ↦ none
    | some lo ↦ elim (parse_int (drop (suc i) pattern)) [ none ↦ none | some hi ↦ some (lo, hi) ]
  ]
]

unfoldable pub match : Text → Text → Bool
match pattern value = elim (parse_int value) [
  | none ↦ false
  | some v ↦ elim (parse_range pattern) [ none ↦ false | some (lo, hi) ↦ leb_ℤ lo v && leb_ℤ v hi ]
]
