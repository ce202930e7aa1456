-- ===== src/Tests/Config.antt =====
-- The theorems of the configuration and of its watcher at concrete inputs.
use koala_v.Prelude.{
  ℕ, suc, pos, ◌*ℤ◌, ◌^◌, ◌-ℤ◌, wrap64, Text, bytes, text_eq, lookup, [], ◌∷◌, ◌++◌, true, false,
  none, some, inl, inr, ◌≡◌, refl, arith,
}
use koala_v.Rules.{RulesConfig}
use koala_v.Rules.Validate.{validate_rules}
use koala_v.Dict.{Dict, load_dict, load_lines}
use koala_v.Matcher.Dict.{match}
use koala_v.Engine.{Engine}
use koala_v.Engine.Build.{build_rule_set}
use koala_v.Engine.Build.Accepted.{is_built}
use koala_v.Engine.Bridge.{answer}
use koala_v.Api.Numbers.{uint_to_string}
use koala_v.Config.{Config, ConfigError, validate_config, or_text, contains}
use koala_v.Config.Size.{parse_size}
use koala_v.Config.Size.Units.{parse_size-uint_to_string}
use koala_v.Config.Check.{
  Net, add_error, report, validate_server, validate_storage, validate_logging, validate_metrics,
  validate_rules_ref,
}
use koala_v.Config.Check
use koala_v.Config.RuleCheck.{check_rules}
use koala_v.Config.RuleCheck.Accepted.{check_rules-validate_rules}
use koala_v.Watcher.{Watcher, Files, FileEvent, event_loop}
use koala_v.Watcher.Debounce.{Apart, fires, Apart-fires, event_loop-Soon}
use koala_v.Watcher.Reload.{
  Disk, ConfigChangeEvent, new_config_watcher, on_dict_change, on_rules_change,
}
use koala_v.Watcher.Reload.Kept.{initial, rules_file, IsAccepted, apply_all, apply_all-IsAccepted}
use koala_v.Watcher.Served.{on_change, Changed, match-on_dict_change, on_rules_change-main}
use koala_v.Tests.Data.{State, store, rules, config, vip}

parse_size-uint_to_string_example :
    (t : Text) × (uint_to_string 512 ≡ some t)
    × (parse_size (t ++ bytes "mb") ≡ inr (wrap64 (pos 512 *ℤ pos (2 ^ 20))))
unfolding text_eq lookup
parse_size-uint_to_string_example = parse_size-uint_to_string (bytes "mb") 512 2 (omega arith) refl

abbrev pub server_config : Config
server_config = record {
  server = record {
    listen = bytes ":8080";
    read_timeout = pos 5;
    write_timeout = pos 5;
    shutdown_timeout = pos 5;
  };
  rules = record { file = []; reload_interval = pos 0 };
  storage = record {
    typ = bytes "local";
    local = record { max_size = []; num_counters = pos 0; cleanup_interval = pos 0 };
    redis = record {
      addr = [];
      password = [];
      db = pos 0;
      pool_size = pos 0;
      dial_timeout = pos 0;
      read_timeout = pos 0;
      write_timeout = pos 0;
    };
    fallback_enabled = false;
  };
  logging = record {
    level = bytes "info";
    format = bytes "json";
    console = true;
    file = record {
      enabled = false;
      path = [];
      max_size = pos 0;
      max_backups = pos 0;
      max_age = pos 0;
      compress = false;
    };
  };
  metrics = record { enabled = true; path = bytes "/metrics" };
}

abbrev semver_config : RulesConfig
semver_config = record config { meta = record { version = bytes "2.0.0"; description = [] } }

check_rules-validate_rules_example :
    (validate_rules semver_config ≡ none) × (is_built (build_rule_set semver_config) ≡ true)
unfolding check_rules report text_eq lookup koala_v.Config.Check.is_valid_version
check_rules-validate_rules_example = check_rules-validate_rules (λ i. []) semver_config refl

-- A watcher of one file, whose callback counts.
abbrev files : Files Unit
files = record { abs = λ t. some t; dir = λ t. []; add = λ t f. (true, f); close = λ f. (true, f) }

abbrev file_path : Text
file_path = bytes "/rules.toml"

abbrev watcher : Watcher ℕ Unit
watcher = record {
  fs_watcher = tt;
  callbacks = (file_path, (λ now path n. suc n) ∷ []) ∷ [];
  debounce = pos 100;
  last_modified = (file_path, pos 1000) ∷ [];
  cancelled = false;
  started = true;
}

abbrev write : FileEvent
write = record { name = file_path; is_write = true; is_create = false }

Apart-fires_example :
    Apart
      (pos 100)
      (some (pos 1000))
      (fires files file_path ((pos 1050, write) ∷ (pos 1200, write) ∷ []) watcher 0)
unfolding lookup text_eq
Apart-fires_example =
    Apart-fires files file_path ((pos 1050, write) ∷ (pos 1200, write) ∷ []) watcher 0

event_loop-Soon_example : event_loop files ((pos 1050, write) ∷ []) watcher 0 ≡ (watcher, 0)
unfolding lookup text_eq ◌-ℤ◌
event_loop-Soon_example =
    event_loop-Soon files (pos 1000) file_path ((pos 1050, write) ∷ []) watcher 0 refl
      (refl, omega arith, tt)

-- A disk on which the rules are there and the configuration is not, and with a dictionary of two.
abbrev disk : Disk Unit
disk = record {
  decode_config = λ path. inl tt;
  decode_rules = λ path. inr config;
  read = λ path. some (bytes "7" ∷ bytes "8" ∷ []);
}

abbrev listener : ConfigChangeEvent Unit → ℕ → ℕ
listener event n = suc n

apply_all-IsAccepted_example :
    IsAccepted
      (apply_all disk listener
        (initial ∷ rules_file (pos 1) file_path ∷ [])
        (new_config_watcher (bytes "/koala.toml"), 0)).0
apply_all-IsAccepted_example =
    apply_all-IsAccepted disk listener (initial ∷ rules_file (pos 1) file_path ∷ [])
      (bytes "/koala.toml") 0

abbrev engine : Engine State
engine = record { rules = some rules; storage = some store; dicts = none }

abbrev eight : Dict
eight = load_lines (bytes "7" ∷ bytes "8" ∷ []) []

match-on_dict_change_example :
    match
      (on_dict_change disk
        (on_change disk file_path vip)
        (bytes "vip")
        (pos 1)
        (bytes "/vip.txt")
        (new_config_watcher (bytes "/koala.toml"), (engine, []))).1.1.1
      (bytes "@vip")
      (bytes "8")
    ≡ answer (lookup (bytes "vip") vip.dicts) (bytes "8") (match [] (bytes "@vip") (bytes "8"))
unfolding load_dict
match-on_dict_change_example =
    match-on_dict_change disk file_path vip (b'v') (bytes "ip") (bytes "8") (pos 1)
      (bytes "/vip.txt") eight (new_config_watcher (bytes "/koala.toml")) engine [] refl

on_rules_change-main_example :
    Changed disk file_path vip engine []
      (on_rules_change disk
        (on_change disk file_path vip)
        (pos 1)
        file_path
        (new_config_watcher (bytes "/koala.toml"), (engine, []))).1.1
on_rules_change-main_example =
    on_rules_change-main disk file_path vip (pos 1) (new_config_watcher (bytes "/koala.toml"))
      engine []
