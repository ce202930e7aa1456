-- ===== src/Rules/Time/Days.antt =====
-- What ParseLimitTime reads of a number of days.
use koala_v.Prelude.{
  ℕ, ◌<◌, two63, ℤ, pos, ◌*ℤ◌, wrap64, Text, text_eq, text_eq_refl, all, [], ◌∷◌, ◌++◌, true,
  Option, some, inr, ◌≡◌, refl, ap, ◌∙◌, arith,
}
use koala_v.Matcher.Number.{is_digit, parse_uint}
use koala_v.Api.Numbers.{uint_to_string}
use koala_v.Api.Numbers.Printed.{Starts, parse_uint-uint_to_string, parse_int-Starts}
use koala_v.Config.Size.{span_digits}
use koala_v.Config.Size.Units.{
  is_solid, all-append, digits-solid, digits_of, Starts-of, trim_space-solid,
}
use koala_v.Rules.Time.{match_days, day, time_of, parse_limit_trimmed, parse_limit_time}

span_digits-d : (t : Text) → all is_digit t ≡ true → span_digits (t ++ b'd' ∷ []) ≡ (t, b'd' ∷ [])
unfolding span_digits
span_digits-d [] h = refl
span_digits-d (c ∷ cs) h = ground (arith, h, span_digits-d cs)

match_days-d : (t : Text) → Starts t → all is_digit t ≡ true → match_days (t ++ b'd' ∷ []) ≡ some t
unfolding match_days
match_days-d [] st d = elim st [ ]
match_days-d (c ∷ cs) st d = ground (arith, span_digits-d (c ∷ cs) d, text_eq_refl (b'd' ∷ []))

module _ (parse_duration : Text → Option ℤ) where
  time_of-days :
      (s t : Text) (n : ℕ)
      → Starts t
      → parse_uint t ≡ some n
      → n < two63
      → time_of parse_duration s (some t) ≡ inr (wrap64 (pos n *ℤ day))
  unfolding time_of
  time_of-days s t n st r b = ground (arith, parse_int-Starts t n st r b)

  parse_limit_trimmed-match :
      (t u : Text)
      → Starts t
      → parse_limit_trimmed parse_duration (t ++ u)
        ≡ time_of parse_duration (t ++ u) (match_days (t ++ u))
  unfolding parse_limit_trimmed text_eq
  parse_limit_trimmed-match [] u st = elim st [ ]
  parse_limit_trimmed-match (c ∷ cs) u st = refl

  -- A number below 2^63 in decimal, followed by d: ParseLimitTime returns that number of days in
  -- nanoseconds, as an int64 that wraps around, and no error, whatever time.ParseDuration does.
  parse_limit_time-uint_to_string :
      (n : ℕ)
      → n < two63
      → (t : Text) × (uint_to_string n ≡ some t)
        × (parse_limit_time parse_duration (t ++ b'd' ∷ []) ≡ inr (wrap64 (pos n *ℤ day)))
  unfolding parse_limit_time
  parse_limit_time-uint_to_string n b =
      let (t, e, r) = parse_uint-uint_to_string n (omega (arith, b)) in
      let d = digits_of t n r in
      let st = Starts-of t n r d in
      let solid : all is_solid (t ++ b'd' ∷ []) ≡ true =
        ground (arith, all-append is_solid t (b'd' ∷ []), digits-solid t d) in
      (
        t,
        e,
        ap (parse_limit_trimmed parse_duration) (trim_space-solid (t ++ b'd' ∷ []) solid)
            ∙ parse_limit_trimmed-match t (b'd' ∷ []) st
            ∙ ap (time_of parse_duration (t ++ b'd' ∷ [])) (match_days-d t st d)
            ∙ time_of-days (t ++ b'd' ∷ []) t n st r b,
      )
