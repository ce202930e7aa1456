-- ===== src/Engine/Build/Accepted.antt =====
-- BuildRuleSet on the configurations that validateRules accepts.
use koala_v.Prelude.{
  Text, Table, lookup, insert, lookup-insert, List, [], ◌∷◌, ◌++◌, Bool, true, false, Option, none,
  some, inl, inr, ◌≡◌, refl, arith,
}
use koala_v.Rules.{AccessRule, RateRule, RulesConfig, Result}
use koala_v.Rules.Validate.{
  RulesError, RuleError, holds, result_names, first_error, access_error, rate_error,
  validate_access_rule, validate_rate_rule, validate_rules, all_rate_rules, invalid_whitelist,
  invalid_blacklist,
}
use koala_v.Engine.Matching.{Rule, RulePhase}
use koala_v.Engine.Build.{Built, build_access_rule, build_rate_rule, build_all, build_rule_set}

-- The names that are collected are the ones that are defined.
abbrev has_result : Option Result → Bool → Bool
has_result none before = before
has_result (some r) before = true

pub holds-result_names :
    (name : Text) (results : Table Result) (names : Table Bool)
    → holds (lookup name (result_names results names))
      ≡ has_result (lookup name results) (holds (lookup name names))
unfolding result_names lookup
holds-result_names name [] names = refl
holds-result_names name ((n, r) ∷ results) names =
    ground (
      arith,
      lookup-insert n name true names,
      holds-result_names name results (insert n true names),
    )

abbrev pub is_built : {A : Type 0} → Built A → Bool
is_built (inl a) = true
is_built (inr e) = false

access-built :
    (config : RulesConfig) (phase : RulePhase) (r : AccessRule)
    → validate_access_rule r (result_names config.results []) ≡ none
    → is_built (build_access_rule config phase r) ≡ true
unfolding validate_access_rule build_access_rule lookup
access-built config phase r h = ground (arith, holds-result_names r.result config.results [])

rate-built :
    (config : RulesConfig) (phase : RulePhase) (r : RateRule)
    → validate_rate_rule r (result_names config.results []) ≡ none
    → is_built (build_rate_rule config phase r) ≡ true
unfolding validate_rate_rule build_rate_rule lookup
rate-built config phase r h = ground (arith, holds-result_names r.result config.results [])

build_all-built :
    {A : Type 0} (check : A → Option RulesError) (build : A → Built Rule) (xs : List A)
    → ((a : A) → check a ≡ none → is_built (build a) ≡ true)
    → first_error check xs ≡ none
    → is_built (build_all build xs) ≡ true
unfolding first_error build_all
build_all-built check build [] good h = refl
build_all-built check build (x ∷ xs) good h =
    ground (arith, good x, build_all-built check build xs good)

first_error-append :
    {A : Type 0} (check : A → Option RulesError) (xs ys : List A)
    → first_error check (xs ++ ys) ≡ none
    → (first_error check xs ≡ none) × (first_error check ys ≡ none)
unfolding first_error
first_error-append check [] ys h = (refl, h)
first_error-append check (x ∷ xs) ys h = ground (arith, first_error-append check xs ys)

module _ (config : RulesConfig) where
  access_all :
      (phase : RulePhase) (wrap : Text → RuleError → RulesError) (rs : List AccessRule)
      → first_error (access_error (result_names config.results []) wrap) rs ≡ none
      → is_built (build_all (build_access_rule config phase) rs) ≡ true
  unfolding access_error
  access_all phase wrap rs =
      build_all-built (access_error (result_names config.results []) wrap)
        (build_access_rule config phase) rs (λ r h. ground (arith, access-built config phase r))

  rate_all :
      (phase : RulePhase) (rs : List RateRule)
      → first_error (rate_error (result_names config.results [])) rs ≡ none
      → is_built (build_all (build_rate_rule config phase) rs) ≡ true
  unfolding rate_error
  rate_all phase rs =
      build_all-built (rate_error (result_names config.results [])) (build_rate_rule config phase)
        rs (λ r h. ground (arith, rate-built config phase r))

  -- Of each list of rules, no rule is refused.
  record Clean : Type 0 where
    white :
        first_error
          (access_error (result_names config.results []) invalid_whitelist)
          config.access.whitelist
        ≡ none
    black :
        first_error
          (access_error (result_names config.results []) invalid_blacklist)
          config.access.blacklist
        ≡ none
    business :
        first_error (rate_error (result_names config.results [])) config.rules.business ≡ none
    post : first_error (rate_error (result_names config.results [])) config.rules.post ≡ none
    advanced :
        first_error (rate_error (result_names config.results [])) config.rules.advanced ≡ none
    default_rules :
        first_error (rate_error (result_names config.results [])) config.rules.default_rules ≡ none

  accepted-Clean : validate_rules config ≡ none → Clean
  unfolding validate_rules
  accepted-Clean h =
      let check = rate_error (result_names config.results []) in
      let rates : first_error check (all_rate_rules config) ≡ none = ground arith in
      let (bpa, d) = first_error-append check _ config.rules.default_rules rates in
      let (bp, a) = first_error-append check _ config.rules.advanced bpa in
      let (b, p) = first_error-append check config.rules.business config.rules.post bp in
      record {
        white = ground arith;
        black = ground arith;
        business = b;
        post = p;
        advanced = a;
        default_rules = d;
      }

  -- A rule set is built from every configuration that validateRules accepts.
  pub build_rule_set-accepted :
      validate_rules config ≡ none → is_built (build_rule_set config) ≡ true
  unfolding build_rule_set
  build_rule_set-accepted h =
      let c = accepted-Clean h in
      ground (
        arith,
        access_all RulePhase.whitelist invalid_whitelist config.access.whitelist c.white,
        access_all RulePhase.blacklist invalid_blacklist config.access.blacklist c.black,
        rate_all RulePhase.business config.rules.business c.business,
        rate_all RulePhase.post config.rules.post c.post,
        rate_all RulePhase.advanced config.rules.advanced c.advanced,
        rate_all RulePhase.default_phase config.rules.default_rules c.default_rules,
      )
