-- ===== src/Config.antt =====
-- internal/config/config.go: the server's configuration as it is after the TOML decoder, its
-- defaults and its first validation. Durations are nanoseconds.
pub mod Size
pub mod Check
pub mod RuleCheck
pub mod Accepted
use koala_v.Prelude.{
  ◌==◌, ℤ, pos, negsuc, Text, bytes, text_eq, List, [], ◌∷◌, Bool, true, false, not, ◌||◌, ◌&&◌,
  Option, none, some, if◌then◌else◌, ◌⊎◌, inl, inr,
}

pub record ServerConfig : Type 0 where
  pub listen : Text
  pub read_timeout : ℤ
  pub write_timeout : ℤ
  pub shutdown_timeout : ℤ

pub record RulesRef : Type 0 where
  pub file : Text
  pub reload_interval : ℤ

pub record LocalConfig : Type 0 where
  pub max_size : Text
  pub num_counters : ℤ
  pub cleanup_interval : ℤ

pub record RedisConfig : Type 0 where
  pub addr : Text
  pub password : Text
  pub db : ℤ
  pub pool_size : ℤ
  pub dial_timeout : ℤ
  pub read_timeout : ℤ
  pub write_timeout : ℤ

pub record StorageConfig : Type 0 where
  pub typ : Text
  pub local : LocalConfig
  pub redis : RedisConfig
  pub fallback_enabled : Bool

pub record FileConfig : Type 0 where
  pub enabled : Bool
  pub path : Text
  pub max_size : ℤ
  pub max_backups : ℤ
  pub max_age : ℤ
  pub compress : Bool

pub record LoggingConfig : Type 0 where
  pub level : Text
  pub format : Text
  pub console : Bool
  pub file : FileConfig

pub record MetricsConfig : Type 0 where
  pub enabled : Bool
  pub path : Text

pub record Config : Type 0 where
  pub server : ServerConfig
  pub rules : RulesRef
  pub storage : StorageConfig
  pub logging : LoggingConfig
  pub metrics : MetricsConfig

abbrev pub is_zero : ℤ → Bool
is_zero (pos n) = n == 0
is_zero (negsuc n) = false

abbrev or_duration : ℤ → ℤ → ℤ
or_duration d preset = if is_zero d then preset else d

abbrev pub or_text : Text → Text → Text
or_text [] preset = preset
or_text (c ∷ cs) preset = c ∷ cs

abbrev pub second : ℤ
second = pos 1000000000

unfoldable pub apply_defaults : Config → Config
apply_defaults cfg = record {
  server = record cfg.server {
    read_timeout = or_duration cfg.server.read_timeout (pos 5000000000);
    write_timeout = or_duration cfg.server.write_timeout (pos 5000000000);
    shutdown_timeout = or_duration cfg.server.shutdown_timeout (pos 30000000000);
  };
  rules = record cfg.rules {
    reload_interval = or_duration cfg.rules.reload_interval (pos 30000000000);
  };
  storage = record cfg.storage { typ = or_text cfg.storage.typ (bytes "local") };
  logging = record cfg.logging {
    level = or_text cfg.logging.level (bytes "info");
    format = or_text cfg.logging.format (bytes "console");
  };
  metrics = record cfg.metrics { path = or_text cfg.metrics.path (bytes "/metrics") };
}

-- A text of a list.
abbrev pub contains : List Text → Text → Bool
contains [] item = false
contains (s ∷ slice) item = if text_eq s item then true else contains slice item

pub data ConfigError : Type 0 where
  listen_required : ConfigError
  invalid_storage_type invalid_log_level invalid_log_format : Text → ConfigError

abbrev pub storage_types : List Text
storage_types = bytes "local" ∷ bytes "redis" ∷ []

abbrev pub log_levels : List Text
log_levels = bytes "debug" ∷ bytes "info" ∷ bytes "warn" ∷ bytes "error" ∷ []

abbrev pub log_formats : List Text
log_formats = bytes "console" ∷ bytes "json" ∷ []

unfoldable pub validate_config : Config → Option ConfigError
validate_config cfg =
    if text_eq cfg.server.listen []
    then some listen_required
    else if not (text_eq cfg.storage.typ (bytes "local"))
        && not (text_eq cfg.storage.typ (bytes "redis"))
    then some (invalid_storage_type cfg.storage.typ)
    else if not (contains log_levels cfg.logging.level)
    then some (invalid_log_level cfg.logging.level)
    else if not (contains log_formats cfg.logging.format)
    then some (invalid_log_format cfg.logging.format)
    else none

-- What LoadConfig returns: the decoder's error, or that of the validation.
pub data LoadError (E : Type 0) : Type 0 where
  decode_failed : E → LoadError E
  invalid : ConfigError → LoadError E

-- `toml.DecodeFile` is an argument.
unfoldable pub load_config : {E : Type 0} → (Text → E ⊎ Config) → Text → LoadError E ⊎ Config
unfolding apply_defaults validate_config
load_config decode path = elim (decode path) [
  | inl e ↦ inl (decode_failed e)
  | inr cfg ↦
      let cfg' = apply_defaults cfg in
      elim (validate_config cfg') [ some e ↦ inl (invalid e) | none ↦ inr cfg' ]
]
