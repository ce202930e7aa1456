-- ===== src/Watcher/Reload/Kept.antt =====
-- What a change of a file does to ConfigWatcher.
use mathlib.Core.Path.{subst}
use koala_v.Prelude.{
  Sum-cases, Bool, true, false, [], ◌∷◌, sym, ℤ, Text, List, Option, none, some, inl, inr, ◌≡◌,
  refl, arith, Option-cases,
}
use koala_v.Rules.{RulesConfig}
use koala_v.Rules.Validate.{validate_rules}
use koala_v.Rules.Load.{load_rules}
use koala_v.Dict.{load_dict}
use koala_v.Config.{Config, load_config, validate_config, apply_defaults}
use koala_v.Watcher.Reload.{
  Disk, ReloadError, ConfigChangeEvent, ConfigWatcher, new_config_watcher, load_config_file,
  load_rules_file, on_config_change, on_rules_change, on_dict_change, load, load_dict_files,
  load_rules_and_dicts,
}

-- The changes that the watched files report, and the first loading.
pub data Change : Type 0 where
  initial : Change
  config_file rules_file : ℤ → Text → Change
  dict_file : Text → ℤ → Text → Change

-- What is set has passed its validation.
abbrev ConfigPassed : Option Config → Type 0
ConfigPassed none = Unit
ConfigPassed (some config) = validate_config config ≡ none

abbrev RulesPassed : Option RulesConfig → Type 0
RulesPassed none = Unit
RulesPassed (some rules) = validate_rules rules ≡ none

abbrev pub IsAccepted : ConfigWatcher → Type 0
IsAccepted cw = ConfigPassed cw.config × RulesPassed cw.rules

-- Whether a change is the first loading.
abbrev is_loading : Change → Bool
is_loading initial = true
is_loading (config_file now path) = false
is_loading (rules_file now path) = false
is_loading (dict_file name now path) = false

module _ {E A : Type 0} (disk : Disk E) (on_change : ConfigChangeEvent E → A → A) where
  unfoldable pub apply : Change → ConfigWatcher × A → Option (ReloadError E) × (ConfigWatcher × A)
  unfolding load on_config_change on_rules_change on_dict_change
  apply initial (cw, a) = let (err, cw₁) = load disk cw in (err, (cw₁, a))
  apply (config_file now path) s = on_config_change disk on_change now path s
  apply (rules_file now path) s = on_rules_change disk on_change now path s
  apply (dict_file name now path) s = on_dict_change disk on_change name now path s

  loaded_config :
      (path : Text) (config : Config)
      → load_config_file disk path ≡ inr config
      → validate_config config ≡ none
  unfolding load_config_file load_config
  loaded_config path config h = elim (Sum-cases (disk.decode_config path)) [
    | inl (e, d) ↦ absurd (ground (arith, h, d))
    | inr (c, d) ↦ elim (Option-cases (validate_config (apply_defaults c))) [
      | inl v ↦ ground (arith, h, d, v)
      | inr (e, v) ↦ absurd (ground (arith, h, d, v))
    ]
  ]

  pub loaded_rules :
      (path : Text) (rules : RulesConfig)
      → load_rules_file disk path ≡ inr rules
      → validate_rules rules ≡ none
  unfolding load_rules_file load_rules
  loaded_rules path rules h = elim (Sum-cases (disk.decode_rules path)) [
    | inl (e, d) ↦ absurd (ground (arith, h, d))
    | inr (r, d) ↦ elim (Option-cases (validate_rules r)) [
      | inl v ↦ ground (arith, h, d, v)
      | inr (e, v) ↦ absurd (ground (arith, h, d, v))
    ]
  ]

  config_file-IsAccepted :
      (now : ℤ) (path : Text) (cw : ConfigWatcher) (a : A)
      → IsAccepted cw
      → IsAccepted (on_config_change disk on_change now path (cw, a)).1.0
  unfolding on_config_change
  config_file-IsAccepted now path cw a h = elim (Sum-cases (load_config_file disk path)) [
    | inl (e, l) ↦ rw (on_config_change, l) h
    | inr (c, l) ↦ rw (on_config_change, l) (loaded_config path c l, h.1)
  ]

  rules_file-IsAccepted :
      (now : ℤ) (path : Text) (cw : ConfigWatcher) (a : A)
      → IsAccepted cw
      → IsAccepted (on_rules_change disk on_change now path (cw, a)).1.0
  unfolding on_rules_change
  rules_file-IsAccepted now path cw a h = elim (Sum-cases (load_rules_file disk path)) [
    | inl (e, l) ↦ rw (on_rules_change, l) h
    | inr (r, l) ↦ rw (on_rules_change, l) (h.0, loaded_rules path r l)
  ]

  dict_file-IsAccepted :
      (name : Text) (now : ℤ) (path : Text) (cw : ConfigWatcher) (a : A)
      → IsAccepted cw
      → IsAccepted (on_dict_change disk on_change name now path (cw, a)).1.0
  unfolding on_dict_change
  dict_file-IsAccepted name now path cw a h = elim (Option-cases (load_dict disk.read path)) [
    | inl l ↦ rw (on_dict_change, l) h
    | inr (d, l) ↦ rw (on_dict_change, l) h
  ]

  load_dict_files-kept :
      (rules : RulesConfig) (cw : ConfigWatcher)
      → ((load_dict_files disk rules cw).1.config ≡ cw.config)
        × ((load_dict_files disk rules cw).1.rules ≡ cw.rules)
  unfolding load_dict_files
  load_dict_files-kept rules cw = ground arith

  load_dict_files-IsAccepted :
      (rules : RulesConfig) (cw : ConfigWatcher)
      → IsAccepted cw
      → IsAccepted (load_dict_files disk rules cw).1
  load_dict_files-IsAccepted rules cw (h, k) =
      let (e, f) = load_dict_files-kept rules cw in
      (subst ConfigPassed (sym e) h, subst RulesPassed (sym f) k)

  with_path :
      (p : Text) (cw : ConfigWatcher)
      → cw.rules_path ≡ p
      → IsAccepted cw
      → IsAccepted (load_rules_and_dicts disk cw).1
  unfolding load_rules_and_dicts
  with_path [] cw e h = rw (load_rules_and_dicts, e) h
  with_path (c ∷ cs) cw e h = elim (Sum-cases (load_rules_file disk (c ∷ cs))) [
    | inl (x, l) ↦ rw (load_rules_and_dicts, e, l) h
    | inr (r, l) ↦
        rw (load_rules_and_dicts, e, l)
          (load_dict_files-IsAccepted r (record cw { rules = some r })
            (h.0, loaded_rules (c ∷ cs) r l))
  ]

  load-IsAccepted : (cw : ConfigWatcher) → IsAccepted cw → IsAccepted (load disk cw).1
  unfolding load
  load-IsAccepted cw h = elim (Sum-cases (load_config_file disk cw.config_path)) [
    | inl (x, l) ↦ rw (load, l) h
    | inr (c, l) ↦ rw (load, l) (with_path _ _ refl (loaded_config cw.config_path c l, h.1))
  ]

  apply-IsAccepted :
      (change : Change) (cw : ConfigWatcher) (a : A)
      → IsAccepted cw
      → IsAccepted (apply change (cw, a)).1.0
  unfolding apply
  apply-IsAccepted initial cw a h = load-IsAccepted cw h
  apply-IsAccepted (config_file now path) cw a h = config_file-IsAccepted now path cw a h
  apply-IsAccepted (rules_file now path) cw a h = rules_file-IsAccepted now path cw a h
  apply-IsAccepted (dict_file name now path) cw a h = dict_file-IsAccepted name now path cw a h

  unfoldable pub apply_all : List Change → ConfigWatcher × A → ConfigWatcher × A
  apply_all [] s = s
  apply_all (change ∷ changes) s = apply_all changes (apply change s).1

  apply_all-keeps :
      (changes : List Change) (cw : ConfigWatcher) (a : A)
      → IsAccepted cw
      → IsAccepted (apply_all changes (cw, a)).0
  unfolding apply_all
  apply_all-keeps [] cw a h = h
  apply_all-keeps (change ∷ changes) cw a h =
      apply_all-keeps changes _ _ (apply-IsAccepted change cw a h)

  -- Whatever the files hold, and in whatever order the first loading and the changes of files come:
  -- the configuration and the rules that a ConfigWatcher then has, if it has them, pass their
  -- validation.
  pub apply_all-IsAccepted :
      (changes : List Change) (config_path : Text) (a : A)
      → IsAccepted (apply_all changes (new_config_watcher config_path, a)).0
  apply_all-IsAccepted changes config_path a = apply_all-keeps changes _ a (tt, tt)

  -- A change of the configuration, of the rules or of a dictionary whose loading returns an error
  -- leaves all that the ConfigWatcher has as it was.
  apply-failed :
      (change : Change) (e : ReloadError E) (cw : ConfigWatcher) (a : A)
      → is_loading change ≡ false
      → (apply change (cw, a)).0 ≡ some e
      → (apply change (cw, a)).1.0 ≡ cw
  unfolding apply on_config_change on_rules_change on_dict_change
  apply-failed initial e cw a r h = absurd (ground (arith, r))
  apply-failed (config_file now path) e cw a r h = elim (Sum-cases (load_config_file disk path)) [
    | inl (x, l) ↦ ground (arith, l)
    | inr (c, l) ↦ absurd (ground (arith, h, l))
  ]
  apply-failed (rules_file now path) e cw a r h = elim (Sum-cases (load_rules_file disk path)) [
    | inl (x, l) ↦ ground (arith, l)
    | inr (c, l) ↦ absurd (ground (arith, h, l))
  ]
  apply-failed (dict_file name now path) e cw a r h =
      elim (Option-cases (load_dict disk.read path)) [
        | inl l ↦ ground (arith, l)
        | inr (d, l) ↦ absurd (ground (arith, h, l))
      ]
