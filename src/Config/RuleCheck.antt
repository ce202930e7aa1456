-- ===== src/Config/RuleCheck.antt =====
-- internal/config/validate.go: ValidateRules, which collects every error of a rules configuration. The
-- decimal that `fmt.Sprintf` writes for an index is a parameter.
pub mod Single
pub mod Accepted
use koala_v.Prelude.{
  ℕ, suc, ℤ, pos, leb_ℤ, ltb_ℤ, Text, bytes, text_eq, Table, lookup, List, [], ◌∷◌, ◌++◌, Bool,
  true, false, not, ◌||◌, ◌&&◌, Option, none, some, if◌then◌else◌,
}
use koala_v.Rules.{
  Meta, Result, AccessRule, AccessRules, RateRule, RateRules, RulesConfig, is_dict_reference,
  get_dict_name,
}
use koala_v.Rules.Validate.{is_nil}
use koala_v.Config.{contains}
use koala_v.Config.Check.{Validator, add_error, report, is_negative, non_negative, is_valid_version}

-- The names of a dotted field.
abbrev dotted : Text → Text → Text
dotted prefix name = prefix ++ bytes "." ++ name

abbrev pub is_defined {ℓ} : {V : Type ℓ} → Option V → Bool
is_defined none = false
is_defined (some v) = true

unfoldable pub validate_meta : Meta → Validator → Validator
validate_meta meta v =
    if text_eq meta.version []
    then add_error (bytes "meta.version") (bytes "version is required") v
    else report (not (is_valid_version meta.version)) (bytes "meta.version")
        (bytes "invalid version format (expected semver like 1.0.0)") v

unfoldable pub validate_each_result : Table Result → Validator → Validator
validate_each_result [] v = v
validate_each_result ((name, result) ∷ results) v =
    let v₁ =
      report (is_negative result.code) (bytes "results." ++ name ++ bytes ".code") non_negative v in
    let v₂ =
      report (text_eq result.message []) (bytes "results." ++ name ++ bytes ".message")
        (bytes "message is required") v₁ in
    validate_each_result results v₂

unfoldable pub validate_results : Table Result → Validator → Validator
unfolding validate_each_result
validate_results [] v = add_error (bytes "results") (bytes "at least one result must be defined") v
validate_results (r ∷ results) v = validate_each_result (r ∷ results) v

unfoldable pub validate_match : Text → Table Text → Table Text → Validator → Validator
validate_match prefix dicts [] v = v
validate_match prefix dicts ((key, value) ∷ rest) v =
    let name = get_dict_name value in
    let v₁ =
      report (is_dict_reference value && not (is_defined (lookup name dicts)))
        (prefix ++ bytes ".match." ++ key)
        (bytes "references undefined dict '" ++ name ++ bytes "'") v in
    validate_match prefix dicts rest v₁

-- The reference to a result, with which both kinds of rules end.
unfoldable pub validate_result_ref : Text → Text → Table Result → Validator → Validator
validate_result_ref prefix result results v =
    if text_eq result []
    then add_error (dotted prefix (bytes "result")) (bytes "result is required") v
    else report (not (is_defined (lookup result results))) (dotted prefix (bytes "result"))
        (bytes "references undefined result '" ++ result ++ bytes "'") v

unfoldable pub validate_single_access_rule :
    Text → AccessRule → Table Result → Table Text → Validator → Validator
unfolding validate_match validate_result_ref
validate_single_access_rule prefix rule results dicts v =
    let v₁ =
      report (text_eq rule.name []) (dotted prefix (bytes "name")) (bytes "name is required") v in
    let v₂ =
      report (is_nil rule.match) (dotted prefix (bytes "match"))
        (bytes "match conditions are required") v₁ in
    validate_result_ref prefix rule.result results (validate_match prefix dicts rule.match v₂)

abbrev pub rule_types : List Text
rule_types = bytes "count" ∷ bytes "freq" ∷ bytes "accumulate" ∷ []

unfoldable pub validate_single_rate_rule : Text → RateRule → Table Result → Validator → Validator
unfolding validate_result_ref
validate_single_rate_rule prefix rule results v =
    let v₁ =
      report (text_eq rule.name []) (dotted prefix (bytes "name")) (bytes "name is required") v in
    let v₂ =
      report (not (contains rule_types rule.typ)) (dotted prefix (bytes "type"))
        (bytes "must be one of: count, freq, accumulate") v₁ in
    let v₃ =
      report (is_nil rule.match) (dotted prefix (bytes "match"))
        (bytes "match conditions are required") v₂ in
    let v₄ =
      report (leb_ℤ rule.limit.time (pos 0)) (dotted prefix (bytes "limit.time"))
        (bytes "must be positive") v₃ in
    let v₅ =
      report (leb_ℤ rule.limit.count (pos 0)) (dotted prefix (bytes "limit.count"))
        (bytes "must be positive") v₄ in
    validate_result_ref prefix rule.result results v₅

-- A loop over rules, with their index.
unfoldable pub each :
    {A : Type 0} → (ℕ → A → Validator → Validator) → ℕ → List A → Validator → Validator
each check i [] v = v
each check i (a ∷ rest) v = each check (suc i) rest (check i a v)

module _ (itoa : ℕ → Text) where
  -- `fmt.Sprintf("access.whitelist[%d]", i)`.
  abbrev pub indexed : Text → ℕ → Text
  indexed name i = name ++ bytes "[" ++ itoa i ++ bytes "]"

  unfoldable pub validate_access_rules :
      AccessRules → Table Result → Table Text → Validator → Validator
  unfolding each validate_single_access_rule
  validate_access_rules access results dicts v =
      let check : Text → ℕ → AccessRule → Validator → Validator =
        λ name i rule. validate_single_access_rule (indexed name i) rule results dicts in
      each (check (bytes "access.blacklist")) 0 access.blacklist
        (each (check (bytes "access.whitelist")) 0 access.whitelist v)

  unfoldable pub validate_rate_rules : RateRules → Table Result → Validator → Validator
  unfolding each validate_single_rate_rule
  validate_rate_rules rules results v =
      let check : Text → ℕ → RateRule → Validator → Validator =
        λ name i rule. validate_single_rate_rule (indexed name i) rule results in
      each (check (bytes "rules.default")) 0 rules.default_rules (
        each (check (bytes "rules.advanced")) 0 rules.advanced (
          each (check (bytes "rules.post")) 0 rules.post
            (each (check (bytes "rules.business")) 0 rules.business v)))

  unfoldable pub check_rules : RulesConfig → Validator
  unfolding validate_meta validate_results validate_access_rules validate_rate_rules
  check_rules rules = validate_rate_rules rules.rules rules.results (
      validate_access_rules rules.access rules.results rules.dicts
        (validate_results rules.results (validate_meta rules.meta [])))
