-- ===== src/Config/Size/Units.antt =====
-- What ParseSize reads of a number with a unit.
use koala_v.Prelude.{
  ℕ, ◌+◌, ◌-◌, ◌*◌, ◌<◌, leb, two63, pos, ◌*ℤ◌, wrap64, Text, bytes, text_eq, text_eq_iff, lookup,
  ◌^◌, is_space, trim_left, trim_space, all, reverse, [], ◌∷◌, ◌++◌, Bool, true, not, ◌&&◌, some,
  inr, ◌≡◌, refl, ap, ◌∙◌, arith,
}
use mathlib.Core.List.{reverse-reverse, reverse-cons}
use koala_v.Matcher.Number.{is_digit, parse_digits, parse_uint}
use koala_v.Api.Numbers.{uint_to_string}
use koala_v.Api.Numbers.Printed.{Starts, parse_uint-uint_to_string, parse_int-Starts}
use koala_v.Config.Size.Powers.{units, multiplier_of-units}
use koala_v.Config.Size.{
  to_upper, span_digits, skip_blanks, multiplier_of, match_size, size_of, parse_trimmed, parse_size,
}

-- A character that trimming keeps.
abbrev pub is_solid : ℕ → Bool
is_solid c = not (is_space c)

trim_left-solid : (t : Text) → all is_solid t ≡ true → trim_left t ≡ t
unfolding trim_left
trim_left-solid [] h = refl
trim_left-solid (c ∷ cs) h = ground (arith, h)

pub all-append : (p : ℕ → Bool) (a b : Text) → all p (a ++ b) ≡ (all p a && all p b)
all-append p [] b = refl
all-append p (x ∷ a) b = ground (arith, all-append p a b)

all-reverse : (p : ℕ → Bool) (a : Text) → all p (reverse a) ≡ all p a
all-reverse p [] = refl
all-reverse p (x ∷ a) =
    ap (all p) (reverse-cons x a)
    ∙ all-append p (reverse a) (x ∷ [])
    ∙ ground (arith, all-reverse p a)

pub trim_space-solid : (t : Text) → all is_solid t ≡ true → trim_space t ≡ t
unfolding trim_space
trim_space-solid t h =
    ap (λ x. reverse (trim_left (reverse x))) (trim_left-solid t h)
    ∙ ap reverse (trim_left-solid (reverse t) (all-reverse is_solid t ∙ h))
    ∙ reverse-reverse t

-- A number reads only from digits.
parse_digits-digits : (t : Text) (acc n : ℕ) → parse_digits acc t ≡ some n → all is_digit t ≡ true
unfolding parse_digits
parse_digits-digits [] acc n h = refl
parse_digits-digits (c ∷ cs) acc n h =
    ground (arith, h, parse_digits-digits cs (acc * 10 + (c - b'0')) n)

pub digits-solid : (t : Text) → all is_digit t ≡ true → all is_solid t ≡ true
unfolding is_space
digits-solid [] h = refl
digits-solid (c ∷ cs) h = ground (arith, h, digits-solid cs)

-- The characters of a unit, in upper case.
abbrev is_letter : ℕ → Bool
is_letter c = leb b'A' c && leb c b'Z'

multiplier_of-letters : (u : Text) (m : ℕ) → multiplier_of u ≡ some m → all is_letter u ≡ true
unfolding multiplier_of
multiplier_of-letters u m h = ground (
  arith,
  h,
  text_eq_iff u [],
  text_eq_iff u (bytes "K"),
  text_eq_iff u (bytes "KB"),
  text_eq_iff u (bytes "M"),
  text_eq_iff u (bytes "MB"),
  text_eq_iff u (bytes "G"),
  text_eq_iff u (bytes "GB"),
  text_eq_iff u (bytes "T"),
  text_eq_iff u (bytes "TB"),
)

letters-solid : (u : Text) → all is_letter (to_upper u) ≡ true → all is_solid u ≡ true
unfolding is_space
letters-solid [] h = refl
letters-solid (c ∷ cs) h = ground (arith, h, letters-solid cs)

to_upper-digits : (t u : Text) → all is_digit t ≡ true → to_upper (t ++ u) ≡ t ++ to_upper u
to_upper-digits [] u h = refl
to_upper-digits (c ∷ cs) u h = ground (arith, h, to_upper-digits cs u)

span_digits-letters :
    (t u : Text) → all is_digit t ≡ true → all is_letter u ≡ true → span_digits (t ++ u) ≡ (t, u)
unfolding span_digits
span_digits-letters [] [] h k = refl
span_digits-letters [] (c ∷ cs) h k = ground (arith, k)
span_digits-letters (c ∷ cs) u h k = ground (arith, h, span_digits-letters cs u)

skip_blanks-letters : (u : Text) → all is_letter u ≡ true → skip_blanks u ≡ u
unfolding skip_blanks
skip_blanks-letters [] h = refl
skip_blanks-letters (c ∷ cs) h = ground (arith, h)

match_size-number :
    (t u : Text) (m : ℕ)
    → Starts t
    → all is_digit t ≡ true
    → multiplier_of (to_upper u) ≡ some m
    → match_size (to_upper (t ++ u)) ≡ some (t, m)
unfolding match_size
match_size-number [] u m st d h = elim st [ ]
match_size-number (c ∷ cs) u m st d h =
    let l = multiplier_of-letters (to_upper u) m h in
    ground (
      arith,
      to_upper-digits (c ∷ cs) u d,
      span_digits-letters (c ∷ cs) (to_upper u) d l,
      skip_blanks-letters (to_upper u) l,
      h,
    )

size_of-number :
    (s t : Text) (n m : ℕ)
    → Starts t
    → parse_uint t ≡ some n
    → n < two63
    → size_of s (some (t, m)) ≡ inr (wrap64 (pos n *ℤ pos m))
unfolding size_of
size_of-number s t n m st r b = ground (arith, parse_int-Starts t n st r b)

parse_trimmed-match :
    (t u : Text)
    → Starts t
    → parse_trimmed (t ++ u) ≡ size_of (t ++ u) (match_size (to_upper (t ++ u)))
unfolding parse_trimmed text_eq
parse_trimmed-match [] u st = elim st [ ]
parse_trimmed-match (c ∷ cs) u st = refl

pub Starts-of : (t : Text) (n : ℕ) → parse_uint t ≡ some n → all is_digit t ≡ true → Starts t
unfolding parse_uint
Starts-of [] n r d = absurd (ground (arith, r))
Starts-of (c ∷ cs) n r d = ground (arith, d)

pub digits_of : (t : Text) (n : ℕ) → parse_uint t ≡ some n → all is_digit t ≡ true
unfolding parse_uint
digits_of [] n r = refl
digits_of (c ∷ cs) n r = parse_digits-digits (c ∷ cs) 0 n r

parse_size-number :
    (t u : Text) (n m : ℕ)
    → parse_uint t ≡ some n
    → n < two63
    → multiplier_of (to_upper u) ≡ some m
    → parse_size (t ++ u) ≡ inr (wrap64 (pos n *ℤ pos m))
unfolding parse_size
parse_size-number t u n m r b h =
    let d = digits_of t n r in
    let st = Starts-of t n r d in
    let solid : all is_solid (t ++ u) ≡ true = ground (
      arith,
      all-append is_solid t u,
      digits-solid t d,
      letters-solid u (multiplier_of-letters (to_upper u) m h),
    ) in
    ap parse_trimmed (trim_space-solid (t ++ u) solid)
    ∙ parse_trimmed-match t u st
    ∙ ap (size_of (t ++ u)) (match_size-number t u m st d h)
    ∙ size_of-number (t ++ u) t n m st r b

-- A number below 2^63 in decimal, followed by a unit in any case of its letters (nothing, K or KB, M
-- or MB, G or GB, T or TB): ParseSize returns the number times 1, 2^10, 2^20, 2^30 or 2^40, as an
-- int64 that wraps around, and no error.
pub parse_size-uint_to_string :
    (u : Text) (n k : ℕ)
    → n < two63
    → lookup u units ≡ some k
    → (t : Text) × (uint_to_string n ≡ some t)
      × (parse_size (t ++ u) ≡ inr (wrap64 (pos n *ℤ pos (2 ^ (10 * k)))))
parse_size-uint_to_string u n k b h =
    let (t, e, r) = parse_uint-uint_to_string n (omega (arith, b)) in
    (t, e, parse_size-number t u n (2 ^ (10 * k)) r b (multiplier_of-units u k h))
