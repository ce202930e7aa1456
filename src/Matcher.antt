-- ===== src/Matcher.antt =====
-- internal/engine/matcher: the nine matchers, and `Parse`, which picks one by the pattern's form.
-- Strings are bytes. The default dictionary matcher is the state `Dicts`, passed to `match`.
pub mod Number
pub mod Members
pub mod Decimal
pub mod Patterns
pub mod Range
pub mod Ip
pub mod Dict
use koala_v.Prelude.{
  ℕ, zero, suc, ◌==◌, leb, ltb_ℤ, ℤ, Text, text_eq, split, trim_space, contains_byte, length, take,
  drop, any, List, [], ◌∷◌, Bool, true, false, ◌&&◌, ◌||◌, not, Option, none, some, if◌then◌else◌,
}
use koala_v.Matcher.Number.{parse_int, is_digit}
use koala_v.Matcher.Range
use koala_v.Matcher.Ip
use koala_v.Matcher.Dict
use koala_v.Matcher.Dict.{Dicts}

pub data Matcher : Type 0 where
  exact_matcher any_matcher not_matcher dict_matcher greater_matcher less_matcher : Matcher
  multi_matcher range_matcher ip_matcher : Matcher

unfoldable pub match_any : Text → Text → Bool
match_any pattern [] = false
match_any pattern (c ∷ cs) = true

unfoldable pub match_not : Text → Text → Bool
match_not [] value = true
match_not (c ∷ negated) value = not (text_eq value negated)

unfoldable pub match_multi : Text → Text → Bool
match_multi pattern value = any (λ part. text_eq (trim_space part) value) (split pattern b',')

-- The two numbers that GreaterMatcher and LessMatcher compare, if both parse.
abbrev compare_with : (ℤ → ℤ → Bool) → Option ℤ → Option ℤ → Bool
compare_with test none value = false
compare_with test (some t) none = false
compare_with test (some t) (some v) = test v t

unfoldable pub match_greater : Text → Text → Bool
match_greater [] value = false
match_greater (c ∷ []) value = false
match_greater (c ∷ d ∷ ds) value =
    compare_with (λ v t. ltb_ℤ t v) (parse_int (d ∷ ds)) (parse_int value)

unfoldable pub match_less : Text → Text → Bool
match_less [] value = false
match_less (c ∷ []) value = false
match_less (c ∷ d ∷ ds) value =
    compare_with (λ v t. ltb_ℤ v t) (parse_int (d ∷ ds)) (parse_int value)

unfoldable pub match : Dicts → Matcher → Text → Text → Bool
match dicts exact_matcher pattern value = text_eq pattern value
match dicts any_matcher pattern value = match_any pattern value
match dicts not_matcher pattern value = match_not pattern value
match dicts dict_matcher pattern value = Dict.match dicts pattern value
match dicts greater_matcher pattern value = match_greater pattern value
match dicts less_matcher pattern value = match_less pattern value
match dicts multi_matcher pattern value = match_multi pattern value
match dicts range_matcher pattern value = Range.match pattern value
match dicts ip_matcher pattern value = Ip.match pattern value

-- All bytes from the sign on are digits, and there is one.
abbrev all_digits : Text → Bool
all_digits [] = false
all_digits (c ∷ []) = is_digit c
all_digits (c ∷ d ∷ ds) = is_digit c && all_digits (d ∷ ds)

unfoldable pub is_integer : Text → Bool
is_integer [] = false
is_integer (c ∷ cs) = if c == b'-' || c == b'+' then all_digits cs else all_digits (c ∷ cs)

unfoldable pub find_range_dash : Text → Option ℕ
find_range_dash pattern =
    let start = Range.start_index pattern in Range.index_from start (drop start pattern)

unfoldable pub is_range_pattern : Text → Bool
unfolding find_range_dash is_integer
is_range_pattern pattern = elim (find_range_dash pattern) [
  | none ↦ false
  | some i ↦ is_integer (take i pattern) && is_integer (drop (suc i) pattern)
]

unfoldable pub is_ip_wildcard_pattern : Text → Bool
is_ip_wildcard_pattern pattern =
    if not (contains_byte pattern b'*') then false else length (split pattern b'.') == 4

-- The tests after those on the first byte.
unfoldable pub parse_rest : Text → Matcher
unfolding is_range_pattern is_ip_wildcard_pattern
parse_rest pattern =
    if contains_byte pattern b','
    then multi_matcher
    else if is_range_pattern pattern
    then range_matcher
    else if is_ip_wildcard_pattern pattern
    then ip_matcher
    else exact_matcher

unfoldable pub parse : Text → Matcher
unfolding parse_rest
parse [] = exact_matcher
parse (c ∷ cs) =
    if c == b'+'
    then any_matcher
    else if c == b'!'
    then not_matcher
    else if c == b'@'
    then dict_matcher
    else if c == b'>'
    then greater_matcher
    else if c == b'<'
    then less_matcher
    else parse_rest (c ∷ cs)
