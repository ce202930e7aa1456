-- ===== src/Config/Size.antt =====
-- internal/config/config.go: ParseSize. The regular expression is ^(\d+)\s*(KB|MB|GB|TB|K|M|G|T)?$,
-- on the text in upper case; upper case is that of ASCII letters.
pub mod Powers
pub mod Units
use koala_v.Prelude.{
  ℕ, ◌+◌, ◌-◌, ◌*◌, ◌==◌, leb, ℤ, pos, negsuc, ◌*ℤ◌, ltb_ℤ, wrap64, Text, bytes, text_eq,
  trim_space, List, [], ◌∷◌, Bool, true, false, ◌&&◌, ◌||◌, Option, none, some, if◌then◌else◌, ◌⊎◌,
  inl, inr,
}
use koala_v.Matcher.Number.{is_digit, parse_int}
use koala_v.Config.{LocalConfig}

pub data SizeError : Type 0 where
  empty_size : SizeError
  invalid_format invalid_value negative_size : Text → SizeError

-- `strings.ToUpper`.
abbrev upper_char : ℕ → ℕ
upper_char c = if leb b'a' c && leb c b'z' then c - 32 else c

abbrev pub to_upper : Text → Text
to_upper [] = []
to_upper (c ∷ cs) = upper_char c ∷ to_upper cs

-- The digits at the front, and the rest.
unfoldable pub span_digits : Text → Text × Text
span_digits [] = ([], [])
span_digits (c ∷ cs) =
    let (ds, rest) = span_digits cs in if is_digit c then (c ∷ ds, rest) else ([], c ∷ cs)

-- `\s`: tab, newline, form feed, carriage return and space.
abbrev is_blank : ℕ → Bool
is_blank c = c == 9 || (c == 10 || (c == 12 || (c == 13 || c == 32)))

unfoldable pub skip_blanks : Text → Text
skip_blanks [] = []
skip_blanks (c ∷ cs) = let rest = skip_blanks cs in if is_blank c then rest else c ∷ cs

-- The multiplier of a unit; none if it is not one.
unfoldable pub multiplier_of : Text → Option ℕ
multiplier_of u =
    if text_eq u []
    then some 1
    else if text_eq u (bytes "K") || text_eq u (bytes "KB")
    then some 1024
    else if text_eq u (bytes "M") || text_eq u (bytes "MB")
    then some 1048576
    else if text_eq u (bytes "G") || text_eq u (bytes "GB")
    then some 1073741824
    else if text_eq u (bytes "T") || text_eq u (bytes "TB")
    then some 1099511627776
    else none

-- The two groups of the expression: the digits and the multiplier of the unit.
unfoldable pub match_size : Text → Option (Text × ℕ)
unfolding span_digits skip_blanks multiplier_of
match_size t =
    let (ds, rest) = span_digits t in
    elim ds [
      | [] ↦ none
      | c ∷ cs ↦ elim (multiplier_of (skip_blanks rest)) [ none ↦ none | some m ↦ some (c ∷ cs, m) ]
    ]

unfoldable pub size_of : Text → Option (Text × ℕ) → SizeError ⊎ ℤ
size_of s none = inl (invalid_format s)
size_of s (some (ds, m)) = elim (parse_int ds) [
  | none ↦ inl (invalid_value s)
  | some value ↦
      if ltb_ℤ value (pos 0) then inl (negative_size s) else inr (wrap64 (value *ℤ pos m))
]

unfoldable pub parse_trimmed : Text → SizeError ⊎ ℤ
unfolding match_size size_of
parse_trimmed s = if text_eq s [] then inl empty_size else size_of s (match_size (to_upper s))

unfoldable pub parse_size : Text → SizeError ⊎ ℤ
unfolding trim_space parse_trimmed
parse_size s = parse_trimmed (trim_space s)

unfoldable pub get_max_size_bytes : LocalConfig → SizeError ⊎ ℤ
unfolding parse_size
get_max_size_bytes c = if text_eq c.max_size [] then inr (pos 536870912) else parse_size c.max_size
