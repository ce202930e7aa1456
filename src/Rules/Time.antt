-- ===== src/Rules/Time.antt =====
-- internal/config/rules.go: ParseLimitTime. The regular expression is ^(\d+)d$; `time.ParseDuration` is a
-- parameter, with `none` for an error.
pub mod Days
use koala_v.Prelude.{
  ◌==◌, ℤ, pos, ◌*ℤ◌, wrap64, Text, text_eq, trim_space, List, [], ◌∷◌, Bool, true, false, Option,
  none, some, if◌then◌else◌, ◌⊎◌, inl, inr,
}
use koala_v.Matcher.Number.{parse_int}
use koala_v.Config.Size.{span_digits}

pub data TimeError : Type 0 where
  empty_time : TimeError
  invalid_day invalid_time : Text → TimeError

-- The digits in front of the final d.
unfoldable pub match_days : Text → Option Text
unfolding span_digits
match_days s =
    let (ds, rest) = span_digits s in
    elim ds [ [] ↦ none | c ∷ cs ↦ if text_eq rest (b'd' ∷ []) then some (c ∷ cs) else none ]

-- 24 hours.
abbrev pub day : ℤ
day = pos 86400000000000

module _ (parse_duration : Text → Option ℤ) where
  unfoldable pub time_of : Text → Option Text → TimeError ⊎ ℤ
  time_of s (some ds) = elim (parse_int ds) [
    | none ↦ inl (invalid_day s)
    | some days ↦ inr (wrap64 (days *ℤ day))
  ]
  time_of s none = elim (parse_duration s) [ none ↦ inl (invalid_time s) | some d ↦ inr d ]

  unfoldable pub parse_limit_trimmed : Text → TimeError ⊎ ℤ
  unfolding match_days time_of
  parse_limit_trimmed s = if text_eq s [] then inl empty_time else time_of s (match_days s)

  unfoldable pub parse_limit_time : Text → TimeError ⊎ ℤ
  unfolding trim_space parse_limit_trimmed
  parse_limit_time s = parse_limit_trimmed (trim_space s)
