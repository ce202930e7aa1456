-- ===== src/Matcher/Patterns.antt =====
-- The patterns "lo-hi", ">n" and "<n", from the text to the answer.
use koala_v.Prelude.{
  ℕ, suc, ◌<◌, ℤ, pos, sub_ℕ, two63, leb_ℤ, ltb_ℤ, Text, contains_byte, take, drop, [], ◌∷◌, Bool,
  true, false, ◌&&◌, some, ◌≡◌, refl, ◌∙◌, ap, arith, if◌then◌else◌,
}
use koala_v.Matcher.Number.{parse_digits, parse_uint, parse_int}
use koala_v.Matcher.Decimal.{
  digits, tens, parse-digits, digits-first, index-digits, take-digits, drop-digits,
  contains_byte-digits, digits_only, digits_only-digits,
}
use koala_v.Matcher.Range.{index_from, start_index, find_range_dash_index, parse_range}
use koala_v.Matcher.Range
use koala_v.Matcher.{
  range_matcher, all_digits, is_integer, find_range_dash, is_range_pattern, parse, parse_rest,
  match_greater, match_less,
}

-- An integer as it is written: its sign, its magnitude, and one less than the number of its digits.
pub record Literal : Type 0 where
  pub negative : Bool
  pub magnitude : ℕ
  pub width : ℕ

-- The digits suffice, and the integer is above -2^63 and under 2^63.
pub record IsSmall (l : Literal) : Type 0 where
  pub fits : l.magnitude < tens l.width
  pub bounded : l.magnitude < two63

-- Its text in front of another.
abbrev pub write : Literal → Text → Text
write l rest =
    if l.negative then b'-' ∷ digits l.width l.magnitude rest else digits l.width l.magnitude rest

abbrev pub value : Literal → ℤ
value l = if l.negative then sub_ℕ 0 l.magnitude else pos l.magnitude

parse_uint-digits : (k n : ℕ) → n < tens k → parse_uint (digits k n []) ≡ some n
unfolding parse_uint parse_digits
parse_uint-digits k n h =
    let (c, cs, e, d) = digits-first k n [] in ground (arith, e, parse-digits k n 0 [] h)

-- ParseInt reads a written integer back.
parse_int-write : (l : Literal) → IsSmall l → parse_int (write l []) ≡ some (value l)
unfolding parse_int
parse_int-write l h =
    let (c, cs, e, d) = digits-first l.width l.magnitude [] in
    ground (arith, e, parse_uint-digits l.width l.magnitude h.fits, h.bounded)

-- Where the dash of "lo-hi" stands.
abbrev dash_index : Literal → ℕ
dash_index l = if l.negative then suc (suc l.width) else suc l.width

-- The pattern "lo-hi".
abbrev range_pattern : Literal → Literal → Text
range_pattern lo hi = write lo (b'-' ∷ write hi [])

dash-range_pattern :
    (lo hi : Literal) → find_range_dash_index (range_pattern lo hi) ≡ some (dash_index lo)
unfolding find_range_dash_index index_from
dash-range_pattern lo hi =
    let (c, cs, e, d) = digits-first lo.width lo.magnitude (b'-' ∷ write hi []) in
    ground (
      arith,
      e,
      index-digits lo.width lo.magnitude 0 (b'-' ∷ write hi []),
      index-digits lo.width lo.magnitude 1 (b'-' ∷ write hi []),
    )

take-range_pattern : (lo hi : Literal) → take (dash_index lo) (range_pattern lo hi) ≡ write lo []
take-range_pattern lo hi = ground (arith, take-digits lo.width lo.magnitude 0 (b'-' ∷ write hi []))

drop-range_pattern :
    (lo hi : Literal) → drop (suc (dash_index lo)) (range_pattern lo hi) ≡ write hi []
drop-range_pattern lo hi = ground (arith, drop-digits lo.width lo.magnitude 1 (b'-' ∷ write hi []))

-- The two halves of a pattern around its dash.
parse_range-halves :
    (pattern : Text) (i : ℕ) (lo hi : ℤ)
    → find_range_dash_index pattern ≡ some i
    → parse_int (take i pattern) ≡ some lo
    → parse_int (drop (suc i) pattern) ≡ some hi
    → parse_range pattern ≡ some (lo, hi)
unfolding parse_range
parse_range-halves pattern i lo hi e f g = ground arith

parse_range-range_pattern :
    (lo hi : Literal)
    → IsSmall lo
    → IsSmall hi
    → parse_range (range_pattern lo hi) ≡ some (value lo, value hi)
parse_range-range_pattern lo hi h k =
    parse_range-halves (range_pattern lo hi) (dash_index lo) (value lo) (value hi)
      (dash-range_pattern lo hi) (ap parse_int (take-range_pattern lo hi) ∙ parse_int-write lo h)
      (ap parse_int (drop-range_pattern lo hi) ∙ parse_int-write hi k)

all_digits-only : (c : ℕ) (cs : Text) → digits_only (c ∷ cs) ≡ true → all_digits (c ∷ cs) ≡ true
all_digits-only c [] h = ground arith
all_digits-only c (d ∷ ds) h = ground (arith, all_digits-only d ds)

all_digits-digits : (k n : ℕ) → all_digits (digits k n []) ≡ true
all_digits-digits k n =
    let (c, cs, e, d) = digits-first k n [] in
    rw e (all_digits-only c cs (rw e at (digits_only-digits k n [] refl)))

is_integer-write : (l : Literal) → is_integer (write l []) ≡ true
unfolding is_integer
is_integer-write l =
    let (c, cs, e, d) = digits-first l.width l.magnitude [] in
    ground (arith, e, all_digits-digits l.width l.magnitude)

is_range-halves :
    (pattern : Text) (i : ℕ)
    → find_range_dash pattern ≡ some i
    → is_integer (take i pattern) ≡ true
    → is_integer (drop (suc i) pattern) ≡ true
    → is_range_pattern pattern ≡ true
unfolding is_range_pattern
is_range-halves pattern i e f g = ground arith

dash-find : (pattern : Text) → find_range_dash pattern ≡ find_range_dash_index pattern
unfolding find_range_dash find_range_dash_index
dash-find pattern = refl

no_comma : (lo hi : Literal) → contains_byte (range_pattern lo hi) b',' ≡ false
unfolding contains_byte
no_comma lo hi = ground (
  arith,
  contains_byte-digits lo.width lo.magnitude b',' (b'-' ∷ write hi []) refl,
  contains_byte-digits hi.width hi.magnitude b',' [] refl,
)

-- Parse takes the pattern "lo-hi" of two integers, signed ones too, for a RangeMatcher.
parse-range_pattern : (lo hi : Literal) → parse (range_pattern lo hi) ≡ range_matcher
unfolding parse parse_rest
parse-range_pattern lo hi =
    let (c, cs, e, d) = digits-first lo.width lo.magnitude (b'-' ∷ write hi []) in
    let ranged =
      is_range-halves (range_pattern lo hi) (dash_index lo)
        (dash-find (range_pattern lo hi) ∙ dash-range_pattern lo hi)
        (ap is_integer (take-range_pattern lo hi) ∙ is_integer-write lo)
        (ap is_integer (drop-range_pattern lo hi) ∙ is_integer-write hi) in
    ground (arith, e, ranged, no_comma lo hi)

match-parsed :
    (pattern text : Text) (lo hi v : ℤ)
    → parse_range pattern ≡ some (lo, hi)
    → parse_int text ≡ some v
    → Range.match pattern text ≡ (leb_ℤ lo v && leb_ℤ v hi)
unfolding Range.match
match-parsed pattern text lo hi v e f = ground arith

-- The RangeMatcher of "lo-hi" accepts a written integer exactly when it lies between the two, the
-- bounds included, for integers above -2^63 and under 2^63 that
-- are written in enough digits.
match-range_pattern :
    (lo hi v : Literal)
    → IsSmall lo
    → IsSmall hi
    → IsSmall v
    → Range.match (range_pattern lo hi) (write v [])
      ≡ (leb_ℤ (value lo) (value v) && leb_ℤ (value v) (value hi))
match-range_pattern lo hi v h k l =
    match-parsed (range_pattern lo hi) (write v []) (value lo) (value hi) (value v)
      (parse_range-range_pattern lo hi h k) (parse_int-write v l)

-- GreaterMatcher and LessMatcher compare strictly, for integers above -2^63 and under 2^63 that are
-- written in enough digits.
match_greater-write :
    (bound v : Literal)
    → IsSmall bound
    → IsSmall v
    → (match_greater (b'>' ∷ write bound []) (write v []) ≡ ltb_ℤ (value bound) (value v))
      × (match_less (b'<' ∷ write bound []) (write v []) ≡ ltb_ℤ (value v) (value bound))
unfolding match_greater match_less
match_greater-write bound v h k =
    let (c, cs, e, d) = digits-first bound.width bound.magnitude [] in
    ground (arith, e, parse_int-write bound h, parse_int-write v k)
