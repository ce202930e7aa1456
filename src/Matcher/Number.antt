-- ===== src/Matcher/Number.antt =====
-- `strconv.ParseInt(s, 10, 64)` as the matchers use it: `none` is any error.
use koala_v.Prelude.{
  ℕ, ◌+◌, ◌-◌, ◌*◌, ◌==◌, leb, ltb, ℤ, pos, sub_ℕ, two63, Text, [], ◌∷◌, Bool, true, false, ◌&&◌,
  Option, none, some, if◌then◌else◌,
}

abbrev pub is_digit : ℕ → Bool
is_digit c = leb b'0' c && leb c b'9'

-- The digits of a number, in front of those read before.
unfoldable pub parse_digits : ℕ → Text → Option ℕ
parse_digits n [] = some n
parse_digits n (c ∷ cs) =
    let rest = parse_digits (n * 10 + (c - b'0')) cs in if is_digit c then rest else none

-- At least one digit.
unfoldable pub parse_uint : Text → Option ℕ
unfolding parse_digits
parse_uint [] = none
parse_uint (c ∷ cs) = parse_digits 0 (c ∷ cs)

abbrev in_range : Bool → ℕ → Option ℤ
in_range negative n =
    if negative
    then (if leb n two63 then some (sub_ℕ 0 n) else none)
    else if ltb n two63
    then some (pos n)
    else none

abbrev signed : Bool → Option ℕ → Option ℤ
signed negative none = none
signed negative (some n) = in_range negative n

unfoldable pub parse_int : Text → Option ℤ
unfolding parse_uint
parse_int [] = none
parse_int (c ∷ cs) =
    if c == b'-'
    then signed true (parse_uint cs)
    else if c == b'+'
    then signed false (parse_uint cs)
    else signed false (parse_uint (c ∷ cs))
