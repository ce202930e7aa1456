-- ===== src/Config/Check.antt =====
-- internal/config/validate.go: Validator and ValidateConfig. The packages net and fmt are parameters;
-- the regular expressions are written out.
pub mod Silent
pub mod Report
use koala_v.Prelude.{
  ◌==◌, leb, ℤ, pos, leb_ℤ, ltb_ℤ, Text, bytes, text_eq, has_prefix, split, all, List, [], ◌∷◌,
  ◌++◌, Bool, true, false, not, ◌||◌, ◌&&◌, ℕ, Option, none, some, if◌then◌else◌, ◌⊎◌, inl, inr,
}
use koala_v.Matcher.Number.{is_digit}
use koala_v.Config.{
  ServerConfig, RulesRef, LocalConfig, RedisConfig, StorageConfig, FileConfig, LoggingConfig,
  MetricsConfig, Config, contains, storage_types, log_levels, log_formats, second,
}
use koala_v.Config.Size.{SizeError, span_digits, parse_size}

pub record ValidationError : Type 0 where
  pub field : Text
  pub message : Text

-- A Validator is its list of errors.
abbrev pub Validator : Type 0
Validator = List ValidationError

unfoldable pub add_error : Text → Text → Validator → Validator
add_error field message v = v ++ record { field = field; message = message } ∷ []

-- `if bad { v.AddError(field, message) }`.
unfoldable pub report : Bool → Text → Text → Validator → Validator
unfolding add_error
report bad field message v = if bad then add_error field message v else v

-- `net.SplitHostPort`, whether `net.ParseIP` reads an address, and `fmt.Sscanf` with "%d".
pub record Net : Type 0 where
  pub split_host_port : Text → Option (Text × Text)
  pub is_ip : Text → Bool
  pub scan_int : Text → Option ℤ

abbrev pub is_negative : ℤ → Bool
is_negative z = ltb_ℤ z (pos 0)

abbrev pub non_negative : Text
non_negative = bytes "must be non-negative"

abbrev is_alnum : ℕ → Bool
is_alnum c = is_digit c || ((leb b'a' c && leb c b'z') || (leb b'A' c && leb c b'Z'))

-- [a-zA-Z0-9]([a-zA-Z0-9\-]*[a-zA-Z0-9])?, from a character that is alphanumeric.
unfoldable ends_alnum : ℕ → Text → Bool
ends_alnum c [] = is_alnum c
ends_alnum c (d ∷ ds) = (is_alnum d || d == b'-') && ends_alnum d ds

unfoldable is_label : Text → Bool
unfolding ends_alnum
is_label [] = false
is_label (c ∷ cs) = is_alnum c && ends_alnum c cs

unfoldable all_labels : List Text → Bool
unfolding is_label
all_labels [] = true
all_labels (l ∷ ls) = is_label l && all_labels ls

unfoldable pub is_valid_hostname : Text → Bool
unfolding split all_labels
is_valid_hostname hostname = all_labels (split hostname b'.')

-- ^\d+\.\d+\.\d+(-[a-zA-Z0-9]+)?$, from its end.
abbrev ends_version : Text → Bool
ends_version [] = true
ends_version (c ∷ []) = false
ends_version (c ∷ d ∷ ds) = c == b'-' && all is_alnum (d ∷ ds)

abbrev after_digits : (Text → Bool) → Text × Text → Bool
after_digits rest ([], t) = false
after_digits rest (c ∷ cs, t) = rest t

abbrev after_dot : (Text → Bool) → Text → Bool
after_dot rest [] = false
after_dot rest (c ∷ cs) = c == b'.' && rest cs

unfoldable pub is_valid_version : Text → Bool
unfolding span_digits
is_valid_version version =
    let patch : Text → Bool = λ t. after_digits ends_version (span_digits t) in
    let minor : Text → Bool = λ t. after_digits (after_dot patch) (span_digits t) in
    after_digits (after_dot minor) (span_digits version)

abbrev in_ports : Option ℤ → Bool
in_ports none = false
in_ports (some p) = ltb_ℤ (pos 0) p && leb_ℤ p (pos 65535)

abbrev minutes_5 : ℤ
minutes_5 = pos 300000000000

abbrev pub size_fails : SizeError ⊎ ℤ → Bool
size_fails (inl e) = true
size_fails (inr n) = false

unfoldable pub validate_local_storage : LocalConfig → Validator → Validator
validate_local_storage cfg v =
    let v₁ =
      report (not (text_eq cfg.max_size []) && size_fails (parse_size cfg.max_size))
        (bytes "storage.local.max_size") (bytes "invalid size format: " ++ cfg.max_size) v in
    let v₂ =
      report (is_negative cfg.num_counters) (bytes "storage.local.num_counters") non_negative v₁ in
    report (is_negative cfg.cleanup_interval) (bytes "storage.local.cleanup_interval") non_negative
      v₂

unfoldable pub validate_file_logging : FileConfig → Validator → Validator
validate_file_logging cfg v =
    let v₁ =
      report (text_eq cfg.path []) (bytes "logging.file.path")
        (bytes "path is required when file logging is enabled") v in
    let v₂ = report (is_negative cfg.max_size) (bytes "logging.file.max_size") non_negative v₁ in
    let v₃ =
      report (is_negative cfg.max_backups) (bytes "logging.file.max_backups") non_negative v₂ in
    report (is_negative cfg.max_age) (bytes "logging.file.max_age") non_negative v₃

unfoldable pub validate_logging : LoggingConfig → Validator → Validator
unfolding validate_file_logging
validate_logging cfg v =
    let v₁ =
      report (not (contains log_levels cfg.level)) (bytes "logging.level")
        (bytes "must be one of: debug, info, warn, error") v in
    let v₂ =
      report (not (contains log_formats cfg.format)) (bytes "logging.format")
        (bytes "must be one of: console, json") v₁ in
    if cfg.file.enabled then validate_file_logging cfg.file v₂ else v₂

unfoldable pub validate_metrics : MetricsConfig → Validator → Validator
unfolding has_prefix
validate_metrics cfg v =
    let v₁ =
      report (cfg.enabled && text_eq cfg.path []) (bytes "metrics.path")
        (bytes "path is required when metrics is enabled") v in
    report (not (text_eq cfg.path []) && not (has_prefix cfg.path (bytes "/")))
      (bytes "metrics.path") (bytes "must start with /") v₁

-- The result of `os.Stat` is not used.
unfoldable pub validate_rules_ref : RulesRef → Validator → Validator
validate_rules_ref cfg v =
    let v₁ =
      report (is_negative cfg.reload_interval) (bytes "rules.reload_interval") non_negative v in
    report (ltb_ℤ (pos 0) cfg.reload_interval && ltb_ℤ cfg.reload_interval second)
      (bytes "rules.reload_interval") (bytes "must be at least 1 second if enabled") v₁

module _ (net : Net) where
  unfoldable pub is_valid_port : Text → Bool
  is_valid_port port = if text_eq port [] then false else in_ports (net.scan_int port)

  abbrev is_host : Text → Bool
  is_host host = text_eq host [] || (net.is_ip host || is_valid_hostname host)

  unfoldable pub is_valid_listen_address : Text → Bool
  unfolding is_valid_port is_valid_hostname
  is_valid_listen_address [] = false
  is_valid_listen_address (c ∷ cs) =
      if c == b':' then is_valid_port cs else elim (net.split_host_port (c ∷ cs)) [
        | none ↦ false
        | some (host, port) ↦ if is_host host then is_valid_port port else false
      ]

  abbrev pub is_valid_redis_address : Text → Bool
  is_valid_redis_address addr = elim (net.split_host_port addr) [ none ↦ false | some hp ↦ true ]

  unfoldable pub validate_server : ServerConfig → Validator → Validator
  unfolding is_valid_listen_address
  validate_server cfg v =
      let v₁ =
        if text_eq cfg.listen []
        then add_error (bytes "server.listen") (bytes "listen address is required") v
        else report (not (is_valid_listen_address cfg.listen)) (bytes "server.listen")
            (bytes "invalid listen address format") v in
      let v₂ =
        report (is_negative cfg.read_timeout) (bytes "server.read_timeout") non_negative v₁ in
      let v₃ =
        report (is_negative cfg.write_timeout) (bytes "server.write_timeout") non_negative v₂ in
      let v₄ =
        report (is_negative cfg.shutdown_timeout) (bytes "server.shutdown_timeout") non_negative
          v₃ in
      let v₅ =
        report (ltb_ℤ minutes_5 cfg.read_timeout) (bytes "server.read_timeout")
          (bytes "unusually long timeout (>5m)") v₄ in
      report (ltb_ℤ minutes_5 cfg.write_timeout) (bytes "server.write_timeout")
        (bytes "unusually long timeout (>5m)") v₅

  unfoldable pub validate_redis_storage : RedisConfig → Validator → Validator
  validate_redis_storage cfg v =
      let v₁ =
        if text_eq cfg.addr []
        then add_error (bytes "storage.redis.addr")
            (bytes "address is required when using redis storage") v
        else report (not (is_valid_redis_address cfg.addr)) (bytes "storage.redis.addr")
            (bytes "invalid address format (expected host:port)") v in
      let v₂ =
        report (is_negative cfg.db || ltb_ℤ (pos 15) cfg.db) (bytes "storage.redis.db")
          (bytes "must be between 0 and 15") v₁ in
      let v₃ =
        report (is_negative cfg.pool_size) (bytes "storage.redis.pool_size") non_negative v₂ in
      let v₄ =
        report (is_negative cfg.dial_timeout) (bytes "storage.redis.dial_timeout") non_negative
          v₃ in
      let v₅ =
        report (is_negative cfg.read_timeout) (bytes "storage.redis.read_timeout") non_negative
          v₄ in
      report (is_negative cfg.write_timeout) (bytes "storage.redis.write_timeout") non_negative v₅

  unfoldable pub validate_storage : StorageConfig → Validator → Validator
  unfolding validate_local_storage validate_redis_storage
  validate_storage cfg v =
      let v₁ =
        report (not (contains storage_types cfg.typ)) (bytes "storage.type")
          (bytes "must be one of: local, redis") v in
      let v₂ =
        if text_eq cfg.typ (bytes "local") then validate_local_storage cfg.local v₁ else v₁ in
      if text_eq cfg.typ (bytes "redis") then validate_redis_storage cfg.redis v₂ else v₂

  unfoldable pub validate_config : Config → Validator
  unfolding validate_server validate_storage validate_logging validate_metrics validate_rules_ref
  validate_config cfg = validate_rules_ref cfg.rules (
      validate_metrics cfg.metrics (
        validate_logging cfg.logging
          (validate_storage cfg.storage (validate_server cfg.server []))))
