-- ===== src/Rules/Validate.antt =====
-- internal/config/rules.go: validateRules, which LoadRules runs after the decoder.
use koala_v.Prelude.{
  pos, leb_ℤ, Text, bytes, text_eq, Table, lookup, insert, List, [], ◌∷◌, ◌++◌, Bool, true, false,
  not, ◌||◌, Option, none, some, if◌then◌else◌,
}
use koala_v.Rules.{AccessRule, RateRule, RulesConfig, Result}

pub data RuleError : Type 0 where
  name_required match_required result_required count_not_positive time_not_positive : RuleError
  invalid_type result_not_defined : Text → RuleError

pub data RulesError : Type 0 where
  version_required : RulesError
  invalid_whitelist invalid_blacklist invalid_rate : Text → RuleError → RulesError

-- The loop that collects the names of the results, as a set.
unfoldable pub result_names : Table Result → Table Bool → Table Bool
result_names [] names = names
result_names ((name, r) ∷ results) names = result_names results (insert name true names)

-- `m[k]` of a set: a missing key is false.
abbrev pub holds : Option Bool → Bool
holds none = false
holds (some b) = b

unfoldable pub valid_type : Text → Bool
valid_type typ =
    text_eq typ (bytes "count") || (text_eq typ (bytes "freq") || text_eq typ (bytes "accumulate"))

abbrev pub is_nil {ℓ} : {A : Type ℓ} → List A → Bool
is_nil [] = true
is_nil (x ∷ xs) = false

unfoldable pub validate_access_rule : AccessRule → Table Bool → Option RuleError
validate_access_rule rule names =
    if is_nil rule.name
    then some name_required
    else if is_nil rule.match
    then some match_required
    else if is_nil rule.result
    then some result_required
    else if not (holds (lookup rule.result names))
    then some (result_not_defined rule.result)
    else none

unfoldable pub validate_rate_rule : RateRule → Table Bool → Option RuleError
unfolding valid_type
validate_rate_rule rule names =
    if is_nil rule.name
    then some name_required
    else if not (valid_type rule.typ)
    then some (invalid_type rule.typ)
    else if is_nil rule.match
    then some match_required
    else if leb_ℤ rule.limit.count (pos 0)
    then some count_not_positive
    else if leb_ℤ rule.limit.time (pos 0)
    then some time_not_positive
    else if is_nil rule.result
    then some result_required
    else if not (holds (lookup rule.result names))
    then some (result_not_defined rule.result)
    else none

-- A loop that stops at the first error.
unfoldable pub first_error : {A : Type 0} → (A → Option RulesError) → List A → Option RulesError
first_error check [] = none
first_error check (a ∷ xs) =
    let rest = first_error check xs in elim (check a) [ some e ↦ some e | none ↦ rest ]

abbrev wrap_error : (RuleError → RulesError) → Option RuleError → Option RulesError
wrap_error wrap none = none
wrap_error wrap (some e) = some (wrap e)

abbrev pub all_rate_rules : RulesConfig → List RateRule
all_rate_rules rules =
    rules.rules.business ++ rules.rules.post ++ rules.rules.advanced ++ rules.rules.default_rules

-- The errors of one rule, with its name.
unfoldable pub access_error :
    Table Bool → (Text → RuleError → RulesError) → AccessRule → Option RulesError
unfolding validate_access_rule
access_error names wrap r = wrap_error (wrap r.name) (validate_access_rule r names)

unfoldable pub rate_error : Table Bool → RateRule → Option RulesError
unfolding validate_rate_rule
rate_error names r = wrap_error (invalid_rate r.name) (validate_rate_rule r names)

unfoldable pub validate_rules : RulesConfig → Option RulesError
unfolding result_names first_error access_error rate_error
validate_rules rules =
    let names = result_names rules.results [] in
    if is_nil rules.meta.version
    then some version_required
    else elim (first_error (access_error names invalid_whitelist) rules.access.whitelist) [
      | some e ↦ some e
      | none ↦ elim (first_error (access_error names invalid_blacklist) rules.access.blacklist) [
        | some e ↦ some e
        | none ↦ first_error (rate_error names) (all_rate_rules rules)
      ]
    ]
