-- ===== src/Watcher/Reload.antt =====
-- internal/config/watcher.go: ConfigWatcher. The decoders and the reading of lines are parameters; the
-- timestamp of an event is the instant of the call.
pub mod Kept
use koala_v.Prelude.{
  ℤ, Text, Table, List, [], ◌∷◌, Bool, true, false, Option, none, some, ◌⊎◌, inl, inr,
  if◌then◌else◌,
}
use koala_v.Rules.{RulesConfig}
use koala_v.Rules.Load.{load_rules}
use koala_v.Rules.Load
use koala_v.Dict.{Dict, DictManager, load_dict, load_dicts, set}
use koala_v.Config.{Config, load_config}
use koala_v.Config
use koala_v.Watcher.{WatcherCallback, Watcher, Files, WatchError, watch, start}

-- The decoders of the two files, and the lines of a dictionary.
pub record Disk (E : Type 0) : Type 0 where
  pub decode_config : Text → E ⊎ Config
  pub decode_rules : Text → E ⊎ RulesConfig
  pub read : Text → Option (List Text)

pub data ReloadError (E : Type 0) : Type 0 where
  config_error : koala_v.Config.LoadError E → ReloadError E
  rules_error : koala_v.Rules.Load.LoadError E → ReloadError E
  dict_error : ReloadError E

pub data ConfigChangeType : Type 0 where
  config_type rules_type dict_type : ConfigChangeType

pub record ConfigChangeEvent (E : Type 0) : Type 0 where
  pub typ : ConfigChangeType
  pub path : Text
  pub error : Option (ReloadError E)
  pub timestamp : ℤ

-- A nil pointer is `none`.
pub record ConfigWatcher : Type 0 where
  pub config : Option Config
  pub rules : Option RulesConfig
  pub dicts : Option DictManager
  pub config_path : Text
  pub rules_path : Text

abbrev pub new_config_watcher : Text → ConfigWatcher
new_config_watcher config_path = record {
  config = none;
  rules = none;
  dicts = none;
  config_path = config_path;
  rules_path = [];
}

abbrev pub get_config : ConfigWatcher → Option Config
get_config cw = cw.config

abbrev pub get_rules : ConfigWatcher → Option RulesConfig
get_rules cw = cw.rules

abbrev pub get_dicts : ConfigWatcher → Option DictManager
get_dicts cw = cw.dicts

abbrev pub set_dict : Text → Dict → Option DictManager → Option DictManager
set_dict name dict none = none
set_dict name dict (some m) = some (set m name dict)

module _ {E : Type 0} (disk : Disk E) where
  unfoldable pub load_config_file : Text → ReloadError E ⊎ Config
  unfolding load_config
  load_config_file path = elim (load_config disk.decode_config path) [
    | inl e ↦ inl (config_error e)
    | inr config ↦ inr config
  ]

  unfoldable pub load_rules_file : Text → ReloadError E ⊎ RulesConfig
  unfolding load_rules
  load_rules_file path = elim (load_rules disk.decode_rules path) [
    | inl e ↦ inl (rules_error e)
    | inr rules ↦ inr rules
  ]

  -- The dictionaries of the rules, if there are any.
  unfoldable pub load_dict_files :
      RulesConfig → ConfigWatcher → Option (ReloadError E) × ConfigWatcher
  unfolding load_dicts
  load_dict_files rules cw = elim rules.dicts [
    | [] ↦ (none, cw)
    | d ∷ ds ↦ elim (load_dicts disk.read (d ∷ ds)) [
      | none ↦ (some dict_error, cw)
      | some m ↦ (none, record cw { dicts = some m })
    ]
  ]

  unfoldable pub load_rules_and_dicts : ConfigWatcher → Option (ReloadError E) × ConfigWatcher
  unfolding load_rules_file load_dict_files
  load_rules_and_dicts cw = elim cw.rules_path [
    | [] ↦ (none, cw)
    | c ∷ cs ↦ elim (load_rules_file (c ∷ cs)) [
      | inl e ↦ (some e, cw)
      | inr rules ↦ load_dict_files rules (record cw { rules = some rules })
    ]
  ]

  -- What was set before an error stays.
  unfoldable pub load : ConfigWatcher → Option (ReloadError E) × ConfigWatcher
  unfolding load_config_file load_rules_and_dicts
  load cw = elim (load_config_file cw.config_path) [
    | inl e ↦ (some e, cw)
    | inr config ↦
        load_rules_and_dicts (record cw { config = some config; rules_path = config.rules.file })
  ]

  module _ {A : Type 0} (on_change : ConfigChangeEvent E → A → A) where
    abbrev event_of : ConfigChangeType → ℤ → Text → Option (ReloadError E) → ConfigChangeEvent E
    event_of typ now path error = record { typ = typ; path = path; error = error; timestamp = now }

    -- The error is returned, and passed on in the event; a load that failed changes nothing.
    unfoldable pub on_config_change :
        ℤ → Text → ConfigWatcher × A → Option (ReloadError E) × (ConfigWatcher × A)
    unfolding load_config_file
    on_config_change now path (cw, a) = elim (load_config_file path) [
      | inl e ↦ (some e, (cw, on_change (event_of config_type now path (some e)) a))
      | inr config ↦ (
        none,
        (record cw { config = some config }, on_change (event_of config_type now path none) a),
      )
    ]

    unfoldable pub on_rules_change :
        ℤ → Text → ConfigWatcher × A → Option (ReloadError E) × (ConfigWatcher × A)
    unfolding load_rules_file
    on_rules_change now path (cw, a) = elim (load_rules_file path) [
      | inl e ↦ (some e, (cw, on_change (event_of rules_type now path (some e)) a))
      | inr rules ↦ (
        none,
        (record cw { rules = some rules }, on_change (event_of rules_type now path none) a),
      )
    ]

    unfoldable pub on_dict_change :
        Text → ℤ → Text → ConfigWatcher × A → Option (ReloadError E) × (ConfigWatcher × A)
    unfolding load_dict
    on_dict_change name now path (cw, a) = elim (load_dict disk.read path) [
      | none ↦ (some dict_error, (cw, on_change (event_of dict_type now path (some dict_error)) a))
      | some dict ↦ (
        none,
        (
          record cw { dicts = set_dict name dict cw.dicts },
          on_change (event_of dict_type now path none) a,
        ),
      )
    ]

    -- The watcher drops the error of a callback.
    abbrev logged :
        (ℤ → Text → ConfigWatcher × A → Option (ReloadError E) × (ConfigWatcher × A))
        → WatcherCallback (ConfigWatcher × A)
    logged callback now path s = (callback now path s).1

    module _ {F : Type 0} (files : Files F) where
      -- The loop over the dictionaries, up to the first error.
      unfoldable pub watch_dicts :
          Table Text
          → Watcher (ConfigWatcher × A) F
          → Option WatchError × Watcher (ConfigWatcher × A) F
      unfolding watch on_dict_change
      watch_dicts [] w = (none, w)
      watch_dicts ((name, path) ∷ dicts) w =
          let (err, w₁) = watch files path (logged (on_dict_change name)) w in
          elim err [ some e ↦ (some e, w₁) | none ↦ watch_dicts dicts w₁ ]

      abbrev dicts_of : Option RulesConfig → Table Text
      dicts_of none = []
      dicts_of (some rules) = rules.dicts

      abbrev watch_rules :
          Text → Watcher (ConfigWatcher × A) F → Option WatchError × Watcher (ConfigWatcher × A) F
      watch_rules [] w = (none, w)
      watch_rules (c ∷ cs) w = watch files (c ∷ cs) (logged on_rules_change) w

      unfoldable pub start_watching :
          ConfigWatcher
          → Watcher (ConfigWatcher × A) F
          → Option WatchError × Watcher (ConfigWatcher × A) F
      unfolding watch watch_dicts on_config_change on_rules_change
      start_watching cw w =
          let (err, w₁) = watch files cw.config_path (logged on_config_change) w in
          elim err [
            | some e ↦ (some e, w₁)
            | none ↦
                let (err₂, w₂) = watch_rules cw.rules_path w₁ in
                elim err₂ [
                  | some e ↦ (some e, w₂)
                  | none ↦
                      let (err₃, w₃) = watch_dicts (dicts_of cw.rules) w₂ in
                      elim err₃ [ some e ↦ (some e, w₃) | none ↦ (none, start w₃) ]
                ]
          ]
