-- ===== src/Engine/Build.antt =====
-- internal/engine/rule.go: BuildRuleSet, from the rules of the configuration to a rule set.
pub mod Compiled
pub mod Accepted
use koala_v.Prelude.{
  ℤ, pos, Text, bytes, text_eq, Table, lookup, insert, List, [], ◌∷◌, Option, none, some, ◌⊎◌, inl,
  inr, if◌then◌else◌,
}
use koala_v.Matcher.{Matcher, parse}
use koala_v.Algorithm.{Algorithm, direct, count, base, leak}
use koala_v.Rules.{Result, AccessRule, RateRule, RulesConfig, get_result}
use koala_v.Engine.Matching.{
  Rule, RuleSet, ResultConfig, RulePhase, RuleType, whitelist, blacklist, business, post, advanced,
  default_phase,
}

-- The error of a rule whose result is not defined: the rule's name and the result's.
pub record BuildError : Type 0 where
  pub rule : Text
  pub result : Text

abbrev pub Built : Type 0 → Type 0
Built A = A ⊎ BuildError

-- The loop that precompiles the matchers.
unfoldable pub compile : Table Text → Table Matcher → Table Matcher
compile [] matchers = matchers
compile ((field, pattern) ∷ cs) matchers = compile cs (insert field (parse pattern) matchers)

abbrev result_config : Result → ResultConfig
result_config r = record { code = r.code; message = r.message; auth_type = r.auth_type }

unfoldable pub build_access_rule : RulesConfig → RulePhase → AccessRule → Built Rule
build_access_rule config phase ar = elim (get_result config ar.result) [
  | none ↦ inr (record { rule = ar.name; result = ar.result })
  | some result ↦ inl (record {
    name = ar.name;
    typ = RuleType.access;
    phase = phase;
    match = ar.match;
    matchers = compile ar.match [];
    limit = record { time = pos 0; count = pos 0; base = pos 0 };
    algorithm = direct;
    result = result_config result;
  })
]

unfoldable pub algorithm_of : Text → Algorithm
algorithm_of typ =
    if text_eq typ (bytes "count")
    then count
    else if text_eq typ (bytes "freq")
    then leak
    else if text_eq typ (bytes "accumulate")
    then base
    else count

unfoldable pub build_rate_rule : RulesConfig → RulePhase → RateRule → Built Rule
build_rate_rule config phase rr = elim (get_result config rr.result) [
  | none ↦ inr (record { rule = rr.name; result = rr.result })
  | some result ↦ inl (record {
    name = rr.name;
    typ = RuleType.rate;
    phase = phase;
    match = rr.match;
    matchers = compile rr.match [];
    limit = record { time = rr.limit.time; count = rr.limit.count; base = rr.limit.base };
    algorithm = algorithm_of rr.typ;
    result = result_config result;
  })
]

-- The loop over one list of rules: the first failure is returned.
unfoldable pub build_all : {A : Type 0} → (A → Built Rule) → List A → Built (List Rule)
build_all build [] = inl []
build_all build (a ∷ rest_of) =
    let rest = build_all build rest_of in
    elim (build a) [ inr e ↦ inr e | inl r ↦ elim rest [ inr e ↦ inr e | inl rs ↦ inl (r ∷ rs) ] ]

-- The lists in the code's order.
unfoldable pub build_rule_set : RulesConfig → Built RuleSet
unfolding build_all
build_rule_set config =
    elim (build_all (build_access_rule config whitelist) config.access.whitelist) [
      | inr e ↦ inr e
      | inl ws ↦ elim (build_all (build_access_rule config blacklist) config.access.blacklist) [
        | inr e ↦ inr e
        | inl bs ↦ elim (build_all (build_rate_rule config business) config.rules.business) [
          | inr e ↦ inr e
          | inl us ↦ elim (build_all (build_rate_rule config post) config.rules.post) [
            | inr e ↦ inr e
            | inl ps ↦ elim (build_all (build_rate_rule config advanced) config.rules.advanced) [
              | inr e ↦ inr e
              | inl vs ↦
                  elim (build_all (build_rate_rule config default_phase)
                    config.rules.default_rules) [
                      | inr e ↦ inr e
                      | inl ds ↦ inl (record {
                        whitelist = ws;
                        blacklist = bs;
                        business = us;
                        post = ps;
                        advanced = vs;
                        default_rules = ds;
                      })
                    ]
            ]
          ]
        ]
      ]
    ]
