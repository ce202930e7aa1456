-- ===== src/Config/RuleCheck/Single.antt =====
-- The parts of a rules configuration of which ValidateRules reports nothing.
use koala_v.Prelude.{
  ℕ, suc, pos, leb_ℤ, Text, bytes, text_eq, text_eq_iff, Table, lookup, List, [], ◌∷◌, true, false,
  not, Option, none, ◌≡◌, refl, arith,
}
use koala_v.Rules.{Meta, Result, AccessRule, RateRule}
use koala_v.Rules.Validate.{
  RuleError, RulesError, is_nil, holds, result_names, valid_type, validate_access_rule,
  validate_rate_rule, first_error, access_error, rate_error,
}
use koala_v.Engine.Build.Accepted.{holds-result_names}
use koala_v.Config.{contains}
use koala_v.Config.Check.{Validator}
use koala_v.Config.Check.Silent.{add_error_silent, report_silent, either_silent}
use koala_v.Config.RuleCheck.{
  is_defined, validate_meta, validate_each_result, validate_results, validate_match,
  validate_result_ref, validate_single_access_rule, rule_types, validate_single_rate_rule, each,
}

pub meta_silent :
    (meta : Meta) (v : Validator) → validate_meta meta v ≡ [] → text_eq meta.version [] ≡ false
unfolding validate_meta
meta_silent meta v h = (either_silent _ _ _ _ _ _ _ h).0

each_result_silent :
    (results : Table Result) (v : Validator) → validate_each_result results v ≡ [] → v ≡ []
unfolding validate_each_result
each_result_silent [] v h = h
each_result_silent ((name, r) ∷ results) v h =
    let (b₁, h₁) = report_silent _ _ _ _ (each_result_silent results _ h) in
    (report_silent _ _ _ _ h₁).1

pub results_silent :
    (results : Table Result) (v : Validator) → validate_results results v ≡ [] → v ≡ []
unfolding validate_results
results_silent [] v h = absurd (add_error_silent _ _ v h)
results_silent (r ∷ results) v h = each_result_silent (r ∷ results) v h

match_silent :
    (prefix : Text) (dicts match : Table Text) (v : Validator)
    → validate_match prefix dicts match v ≡ []
    → v ≡ []
unfolding validate_match
match_silent prefix dicts [] v h = h
match_silent prefix dicts ((key, value) ∷ rest) v h =
    (report_silent _ _ _ _ (match_silent prefix dicts rest _ h)).1

pub is_nil-text_eq : (t : Text) → is_nil t ≡ text_eq t []
unfolding text_eq
is_nil-text_eq [] = refl
is_nil-text_eq (c ∷ cs) = refl

module _ (results : Table Result) where
  -- A name that is defined is among those that validateRules collects.
  collected :
      (name : Text)
      → is_defined (lookup name results) ≡ true
      → holds (lookup name (result_names results [])) ≡ true
  unfolding lookup
  collected name h = ground (arith, h, holds-result_names name results [])

  result_ref_silent :
      (prefix result : Text) (v : Validator)
      → validate_result_ref prefix result results v ≡ []
      → (text_eq result [] ≡ false) × (is_defined (lookup result results) ≡ true) × (v ≡ [])
  unfolding validate_result_ref
  result_ref_silent prefix result v h =
      let (e, bad, k) = either_silent _ (not (is_defined (lookup result results))) _ _ _ _ _ h in
      (e, ground (arith, bad), k)

  access_valid :
      (rule : AccessRule)
      → text_eq rule.name [] ≡ false
      → is_nil rule.match ≡ false
      → text_eq rule.result [] ≡ false
      → holds (lookup rule.result (result_names results [])) ≡ true
      → validate_access_rule rule (result_names results []) ≡ none
  unfolding validate_access_rule
  access_valid rule h₁ h₂ h₃ h₄ =
      ground (arith, h₁, h₂, h₃, h₄, is_nil-text_eq rule.name, is_nil-text_eq rule.result)

  rate_valid :
      (rule : RateRule)
      → text_eq rule.name [] ≡ false
      → not (contains rule_types rule.typ) ≡ false
      → is_nil rule.match ≡ false
      → leb_ℤ rule.limit.count (pos 0) ≡ false
      → leb_ℤ rule.limit.time (pos 0) ≡ false
      → text_eq rule.result [] ≡ false
      → holds (lookup rule.result (result_names results [])) ≡ true
      → validate_rate_rule rule (result_names results []) ≡ none
  unfolding validate_rate_rule valid_type
  rate_valid rule h₁ h₂ h₃ h₄ h₅ h₆ h₇ = ground (
    arith,
    h₁,
    h₂,
    h₃,
    h₄,
    h₅,
    h₆,
    h₇,
    is_nil-text_eq rule.name,
    is_nil-text_eq rule.result,
    text_eq_iff rule.typ (bytes "count"),
    text_eq_iff (bytes "count") rule.typ,
    text_eq_iff rule.typ (bytes "freq"),
    text_eq_iff (bytes "freq") rule.typ,
    text_eq_iff rule.typ (bytes "accumulate"),
    text_eq_iff (bytes "accumulate") rule.typ,
  )

  pub access_silent :
      (prefix : Text) (rule : AccessRule) (dicts : Table Text) (v : Validator)
      → validate_single_access_rule prefix rule results dicts v ≡ []
      → (validate_access_rule rule (result_names results []) ≡ none) × (v ≡ [])
  unfolding validate_single_access_rule
  access_silent prefix rule dicts v h =
      let (given, defined, h₁) = result_ref_silent prefix rule.result _ h in
      let h₂ = match_silent prefix dicts rule.match _ h₁ in
      let (matching, h₃) = report_silent (is_nil rule.match) _ _ _ h₂ in
      let (named, h₄) = report_silent (text_eq rule.name []) _ _ _ h₃ in
      let named' = collected rule.result defined in
      (access_valid rule named matching given named', h₄)

  pub rate_silent :
      (prefix : Text) (rule : RateRule) (v : Validator)
      → validate_single_rate_rule prefix rule results v ≡ []
      → (validate_rate_rule rule (result_names results []) ≡ none) × (v ≡ [])
  unfolding validate_single_rate_rule
  rate_silent prefix rule v h =
      let (given, defined, h₁) = result_ref_silent prefix rule.result _ h in
      let (counts, h₂) = report_silent (leb_ℤ rule.limit.count (pos 0)) _ _ _ h₁ in
      let (times, h₃) = report_silent (leb_ℤ rule.limit.time (pos 0)) _ _ _ h₂ in
      let (matching, h₄) = report_silent (is_nil rule.match) _ _ _ h₃ in
      let (typed, h₅) = report_silent (not (contains rule_types rule.typ)) _ _ _ h₄ in
      let (named, h₆) = report_silent (text_eq rule.name []) _ _ _ h₅ in
      let named' = collected rule.result defined in
      (rate_valid rule named typed matching counts times given named', h₆)

  pub each_silent :
      {A : Type 0} (check : ℕ → A → Validator → Validator) (error : A → Option RulesError)
      → ((i : ℕ) (a : A) (v : Validator) → check i a v ≡ [] → (error a ≡ none) × (v ≡ []))
      → (i : ℕ) (xs : List A) (v : Validator) → each check i xs v ≡ []
      → (first_error error xs ≡ none) × (v ≡ [])
  unfolding each first_error
  each_silent check error good i [] v h = (refl, h)
  each_silent check error good i (a ∷ xs) v h =
      let (e, h₁) = each_silent check error good (suc i) xs _ h in
      let (e', h₂) = good i a v h₁ in (ground (arith, e, e'), h₂)

  pub access_error_silent :
      (wrap : Text → RuleError → RulesError) (rule : AccessRule)
      → validate_access_rule rule (result_names results []) ≡ none
      → access_error (result_names results []) wrap rule ≡ none
  unfolding access_error
  access_error_silent wrap rule h = ground (arith, h)

  pub rate_error_silent :
      (rule : RateRule)
      → validate_rate_rule rule (result_names results []) ≡ none
      → rate_error (result_names results []) rule ≡ none
  unfolding rate_error
  rate_error_silent rule h = ground (arith, h)
