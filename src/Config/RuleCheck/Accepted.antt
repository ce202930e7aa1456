-- ===== src/Config/RuleCheck/Accepted.antt =====
-- Rules for which ValidateRules finds no error.
use koala_v.Prelude.{
  ℕ, Text, bytes, Table, List, [], ◌∷◌, ◌++◌, Bool, true, Option, none, ◌≡◌, arith,
}
use koala_v.Rules.{RateRule, RulesConfig}
use koala_v.Rules.Validate.{
  RulesError, result_names, first_error, access_error, rate_error, validate_rules, all_rate_rules,
  invalid_whitelist, invalid_blacklist,
}
use koala_v.Engine.Build.{build_rule_set}
use koala_v.Engine.Build.Accepted.{is_built, build_rule_set-accepted}
use koala_v.Config.Check.{Validator}
use koala_v.Config.RuleCheck.{
  validate_single_rate_rule, each, validate_access_rules, validate_rate_rules, check_rules, indexed,
}
use koala_v.Config.RuleCheck.Single.{
  meta_silent, results_silent, is_nil-text_eq, access_silent, rate_silent, each_silent,
  access_error_silent, rate_error_silent,
}

first_error-join :
    {A : Type 0} (check : A → Option RulesError) (xs ys : List A)
    → first_error check xs ≡ none
    → first_error check ys ≡ none
    → first_error check (xs ++ ys) ≡ none
unfolding first_error
first_error-join check [] ys h k = k
first_error-join check (x ∷ xs) ys h k = ground (arith, h, first_error-join check xs ys)

module _ (itoa : ℕ → Text) (rules : RulesConfig) where
  abbrev names : Table Bool
  names = result_names rules.results []

  access_rules_silent :
      (v : Validator)
      → validate_access_rules itoa rules.access rules.results rules.dicts v ≡ []
      → (first_error (access_error names invalid_whitelist) rules.access.whitelist ≡ none)
        × (first_error (access_error names invalid_blacklist) rules.access.blacklist ≡ none)
        × (v ≡ [])
  unfolding validate_access_rules
  access_rules_silent v h =
      let (black, h₁) =
        each_silent rules.results _ (access_error names invalid_blacklist)
          (λ i rule w k.
            let (e, k') =
              access_silent rules.results (indexed itoa (bytes "access.blacklist") i) rule
                rules.dicts w k in
            (access_error_silent rules.results invalid_blacklist rule e, k'))
          0 rules.access.blacklist _ h in
      let (white, h₂) =
        each_silent rules.results _ (access_error names invalid_whitelist)
          (λ i rule w k.
            let (e, k') =
              access_silent rules.results (indexed itoa (bytes "access.whitelist") i) rule
                rules.dicts w k in
            (access_error_silent rules.results invalid_whitelist rule e, k'))
          0 rules.access.whitelist v h₁ in
      (white, black, h₂)

  rate_list_silent :
      (name : Text) (xs : List RateRule) (v : Validator)
      → each (λ i rule. validate_single_rate_rule (indexed itoa name i) rule rules.results) 0 xs v
        ≡ []
      → (first_error (rate_error names) xs ≡ none) × (v ≡ [])
  rate_list_silent name xs v h =
      each_silent rules.results _ (rate_error names)
        (λ i rule w k.
          let (e, k') = rate_silent rules.results _ rule w k in
          (rate_error_silent rules.results rule e, k'))
        0 xs v h

  rate_rules_silent :
      (v : Validator)
      → validate_rate_rules itoa rules.rules rules.results v ≡ []
      → (first_error (rate_error names) (all_rate_rules rules) ≡ none) × (v ≡ [])
  unfolding validate_rate_rules
  rate_rules_silent v h =
      let (d, h₁) = rate_list_silent (bytes "rules.default") rules.rules.default_rules _ h in
      let (a, h₂) = rate_list_silent (bytes "rules.advanced") rules.rules.advanced _ h₁ in
      let (p, h₃) = rate_list_silent (bytes "rules.post") rules.rules.post _ h₂ in
      let (b, h₄) = rate_list_silent (bytes "rules.business") rules.rules.business v h₃ in
      let join = first_error-join (rate_error names) in
      (
        join _ rules.rules.default_rules
            (join _ rules.rules.advanced (join rules.rules.business rules.rules.post b p) a) d,
        h₄,
      )

  -- Rules for which ValidateRules finds no error are accepted by validateRules, the check that
  -- LoadRules makes, and a rule set is built from them.
  pub check_rules-validate_rules :
      check_rules itoa rules ≡ []
      → (validate_rules rules ≡ none) × (is_built (build_rule_set rules) ≡ true)
  unfolding check_rules validate_rules
  check_rules-validate_rules h =
      let (rates, h₁) = rate_rules_silent _ h in
      let (white, black, h₂) = access_rules_silent _ h₁ in
      let h₃ = results_silent rules.results _ h₂ in
      let version = meta_silent rules.meta [] h₃ in
      let accepted : validate_rules rules ≡ none =
        ground (arith, rates, white, black, version, is_nil-text_eq rules.meta.version) in
      (accepted, build_rule_set-accepted rules accepted)
