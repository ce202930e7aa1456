-- ===== src/Watcher/Served.antt =====
-- cmd/koala/main.go: what startConfigWatcher does on a change, and the dictionaries that reach the
-- matcher. The state is the engine and the dictionaries of the default DictMatcher.
use mathlib.Core.Path.{subst}
use koala_v.Prelude.{
  ℤ, lookup, Text, Option, none, some, ◌⊎◌, inl, inr, ◌≡◌, refl, sym, ap, ◌∙◌, arith, Sum-cases,
  ◌∷◌, ℕ,
}
use koala_v.Matcher.Dict.{Dicts, match}
use koala_v.Rules.{RulesConfig}
use koala_v.Dict.{Dict, DictManager, load_dict}
use koala_v.Engine.{Engine, load_rules}
use koala_v.Engine.Matching.{RuleSet}
use koala_v.Engine.Build.{build_rule_set}
use koala_v.Engine.Build.Accepted.{build_rule_set-accepted}
use koala_v.Engine.Bridge.{answer, sync_dicts_to_matcher, match-sync_dicts_to_matcher}
use koala_v.Watcher.Reload.{
  Disk, ReloadError, ConfigChangeEvent, config_type, rules_type, dict_type, ConfigWatcher,
  load_rules_file, on_rules_change, on_dict_change,
}
use koala_v.Watcher.Reload.Kept.{loaded_rules}

module _ {E S : Type 0} (disk : Disk E) (rules_file : Text) (dict_manager : DictManager) where
  -- `dict_manager` is that of main; an error only logs.
  unfoldable pub on_change : ConfigChangeEvent E → Engine S × Dicts → Engine S × Dicts
  unfolding load_rules_file sync_dicts_to_matcher
  on_change event (engine, matcher) = elim event.error [
    | some e ↦ (engine, matcher)
    | none ↦ elim event.typ [
      | config_type ↦ (engine, matcher)
      | rules_type ↦ elim (load_rules_file disk rules_file) [
        | inl e ↦ (engine, matcher)
        | inr rules ↦ ((koala_v.Engine.load_rules rules engine).1, matcher)
      ]
      | dict_type ↦ (engine, sync_dicts_to_matcher (some dict_manager) matcher)
    ]
  ]

  on_dict_change-main :
      (name : Text) (now : ℤ) (path : Text) (dict : Dict) (cw : ConfigWatcher) (engine : Engine S)
      (matcher : Dicts)
      → load_dict disk.read path ≡ some dict
      → (on_dict_change disk on_change name now path (cw, (engine, matcher))).1.1
        ≡ (engine, sync_dicts_to_matcher (some dict_manager) matcher)
  unfolding on_dict_change on_change
  on_dict_change-main name now path dict cw engine matcher h = ground (arith, h)

  -- When the file of a dictionary has changed and can be loaded, main syncs the manager that it
  -- loaded at the start: the pattern "@name" then accepts the entries that this manager has under
  -- the name, whatever the file holds now, and what it accepted before if the manager does not have
  -- the name.
  pub match-on_dict_change :
      (c : ℕ) (cs value : Text) (now : ℤ) (path : Text) (dict : Dict) (cw : ConfigWatcher)
      (engine : Engine S) (matcher : Dicts)
      → load_dict disk.read path ≡ some dict
      → match
          (on_dict_change disk on_change (c ∷ cs) now path (cw, (engine, matcher))).1.1.1
          (b'@' ∷ c ∷ cs)
          value
        ≡ answer (lookup (c ∷ cs) dict_manager.dicts) value (match matcher (b'@' ∷ c ∷ cs) value)
  match-on_dict_change c cs value now path dict cw engine matcher h =
      ap (λ x. match x.1 (b'@' ∷ c ∷ cs) value)
        (on_dict_change-main (c ∷ cs) now path dict cw engine matcher h)
      ∙ match-sync_dicts_to_matcher dict_manager c cs value matcher

  -- The rules of the engine after a change of the rules file.
  abbrev RulesAfter : Engine S → ReloadError E ⊎ RulesConfig → Option RuleSet → Type 0
  RulesAfter engine (inl e) rules = rules ≡ engine.rules
  RulesAfter engine (inr config) rules =
      (rs : RuleSet) × (build_rule_set config ≡ inl rs) × (rules ≡ some rs)

  abbrev pub Changed : Engine S → Dicts → Engine S × Dicts → Type 0
  Changed engine matcher (engine', matcher') =
      RulesAfter engine (load_rules_file disk rules_file) engine'.rules
      × (engine'.storage ≡ engine.storage)
      × (matcher' ≡ matcher)

  on_rules_change-failed :
      (now : ℤ) (e : ReloadError E) (cw : ConfigWatcher) (engine : Engine S) (matcher : Dicts)
      → load_rules_file disk rules_file ≡ inl e
      → (on_rules_change disk on_change now rules_file (cw, (engine, matcher))).1.1
        ≡ (engine, matcher)
  unfolding on_rules_change on_change
  on_rules_change-failed now e cw engine matcher h = ground (arith, h)

  on_rules_change-loaded :
      (now : ℤ) (config : RulesConfig) (cw : ConfigWatcher) (engine : Engine S) (matcher : Dicts)
      → load_rules_file disk rules_file ≡ inr config
      → (on_rules_change disk on_change now rules_file (cw, (engine, matcher))).1.1
        ≡ ((load_rules config engine).1, matcher)
  unfolding on_rules_change on_change
  on_rules_change-loaded now config cw engine matcher h = ground (arith, h)

  load_rules-built :
      (config : RulesConfig) (rs : RuleSet) (engine : Engine S)
      → build_rule_set config ≡ inl rs
      → (load_rules config engine).1 ≡ record engine { rules = some rs }
  unfolding load_rules
  load_rules-built config rs engine h = ground (arith, h)

  -- When the rules file has changed, the engine gets the rule set that is built from it, if it can
  -- be read and passes its validation, and keeps its rules otherwise; the building never fails
  -- then. The storage and the matcher stay as they were.
  pub on_rules_change-main :
      (now : ℤ) (cw : ConfigWatcher) (engine : Engine S) (matcher : Dicts)
      → Changed engine matcher
          (on_rules_change disk on_change now rules_file (cw, (engine, matcher))).1.1
  on_rules_change-main now cw engine matcher = elim (Sum-cases (load_rules_file disk rules_file)) [
    | inl (e, l) ↦
        subst (Changed engine matcher) (sym (on_rules_change-failed now e cw engine matcher l))
          (subst (λ r. RulesAfter engine r engine.rules) (sym l) refl, refl, refl)
    | inr (config, l) ↦
        let valid = loaded_rules disk on_change rules_file config l in
        elim (Sum-cases (build_rule_set config)) [
          | inl (rs, built) ↦
              let loaded =
                on_rules_change-loaded now config cw engine matcher l
                ∙ ap (λ e. (e, matcher)) (load_rules-built config rs engine built) in
              subst (Changed engine matcher) (sym loaded)
                (subst (λ r. RulesAfter engine r (some rs)) (sym l) (rs, built, refl), refl, refl)
          | inr (e, refused) ↦
              absurd (ground (arith, refused, build_rule_set-accepted config valid))
        ]
  ]
