-- ===== src/Config/Accepted.antt =====
-- A configuration without validation errors.
use koala_v.Prelude.{
  bytes, text_eq, text_eq_iff, [], Bool, true, false, not, ◌&&◌, none, if◌then◌else◌, ◌≡◌, arith,
}
use koala_v.Config.{
  ServerConfig, RulesRef, LocalConfig, RedisConfig, StorageConfig, FileConfig, LoggingConfig,
  MetricsConfig, Config, contains, storage_types, log_levels, log_formats, validate_config,
}
use koala_v.Config.Size.{parse_size}
use koala_v.Config.Check.{
  Validator, add_error, report, Net, is_negative, non_negative, size_fails, is_valid_listen_address,
  validate_server, validate_local_storage, validate_redis_storage, validate_storage,
  validate_file_logging, validate_logging, validate_metrics, validate_rules_ref,
}
use koala_v.Config.Check
use koala_v.Config.Check.Silent.{report_silent, either_silent}

rules_ref_silent : (cfg : RulesRef) (v : Validator) → validate_rules_ref cfg v ≡ [] → v ≡ []
unfolding validate_rules_ref
rules_ref_silent cfg v h = let (b, h₁) = report_silent _ _ _ _ h in (report_silent _ _ _ _ h₁).1

metrics_silent : (cfg : MetricsConfig) (v : Validator) → validate_metrics cfg v ≡ [] → v ≡ []
unfolding validate_metrics
metrics_silent cfg v h = let (b, h₁) = report_silent _ _ _ _ h in (report_silent _ _ _ _ h₁).1

file_logging_silent : (cfg : FileConfig) (v : Validator) → validate_file_logging cfg v ≡ [] → v ≡ []
unfolding validate_file_logging
file_logging_silent cfg v h =
    let (b₁, h₁) = report_silent _ _ _ _ h in
    let (b₂, h₂) = report_silent _ _ _ _ h₁ in
    let (b₃, h₃) = report_silent _ _ _ _ h₂ in (report_silent _ _ _ _ h₃).1

-- Both branches of a check that runs only under a condition.
guarded_silent :
    (b : Bool) (check : Validator → Validator) (v : Validator)
    → ((w : Validator) → check w ≡ [] → w ≡ [])
    → (if b then check v else v) ≡ []
    → v ≡ []
guarded_silent true check v k h = k v h
guarded_silent false check v k h = h

logging_silent :
    (cfg : LoggingConfig) (v : Validator)
    → validate_logging cfg v ≡ []
    → (contains log_levels cfg.level ≡ true) × (contains log_formats cfg.format ≡ true) × (v ≡ [])
unfolding validate_logging
logging_silent cfg v h =
    let h₁ =
      guarded_silent cfg.file.enabled (validate_file_logging cfg.file) _
        (λ w. file_logging_silent cfg.file w) h in
    let (b₂, h₂) = report_silent _ _ _ _ h₁ in
    let (b₃, h₃) = report_silent _ _ _ _ h₂ in (ground (arith, b₃), ground (arith, b₂), h₃)

local_silent :
    (cfg : LocalConfig) (v : Validator)
    → validate_local_storage cfg v ≡ []
    → ((not (text_eq cfg.max_size []) && size_fails (parse_size cfg.max_size)) ≡ false) × (v ≡ [])
unfolding validate_local_storage
local_silent cfg v h =
    let (b₁, h₁) = report_silent _ _ _ _ h in
    let (b₂, h₂) = report_silent _ _ _ _ h₁ in report_silent _ _ _ _ h₂

module _ (net : Net) where
  redis_silent :
      (cfg : RedisConfig) (v : Validator) → validate_redis_storage net cfg v ≡ [] → v ≡ []
  unfolding validate_redis_storage
  redis_silent cfg v h =
      let (b₁, h₁) = report_silent _ _ _ _ h in
      let (b₂, h₂) = report_silent _ _ _ _ h₁ in
      let (b₃, h₃) = report_silent _ _ _ _ h₂ in
      let (b₄, h₄) = report_silent _ _ _ _ h₃ in
      let (b₅, h₅) = report_silent _ _ _ _ h₄ in (either_silent _ _ _ _ _ _ _ h₅).2

  storage_silent :
      (cfg : StorageConfig) (v : Validator)
      → validate_storage net cfg v ≡ []
      → (contains storage_types cfg.typ ≡ true) × (v ≡ [])
  unfolding validate_storage
  storage_silent cfg v h =
      let h₁ =
        guarded_silent (text_eq cfg.typ (bytes "redis")) (validate_redis_storage net cfg.redis) _
          (λ w. redis_silent cfg.redis w) h in
      let h₂ =
        guarded_silent (text_eq cfg.typ (bytes "local")) (validate_local_storage cfg.local) _
          (λ w k. (local_silent cfg.local w k).1) h₁ in
      let (b, h₃) =
        report_silent (not (contains storage_types cfg.typ)) (bytes "storage.type")
          (bytes "must be one of: local, redis") v h₂ in
      (ground (arith, b), h₃)

  server_silent :
      (cfg : ServerConfig) (v : Validator)
      → validate_server net cfg v ≡ []
      → (text_eq cfg.listen [] ≡ false) × (is_valid_listen_address net cfg.listen ≡ true)
  unfolding validate_server
  server_silent cfg v h =
      let (b₁, h₁) = report_silent _ _ _ _ h in
      let (b₂, h₂) = report_silent _ _ _ _ h₁ in
      let (b₃, h₃) = report_silent _ _ _ _ h₂ in
      let (b₄, h₄) = report_silent _ _ _ _ h₃ in
      let (b₅, h₅) = report_silent _ _ _ _ h₄ in
      let (e, bad, k) = either_silent _ _ _ _ _ _ _ h₅ in (e, ground (arith, bad))

  -- A configuration for which ValidateConfig finds no error passes validateConfig too, the check
  -- that LoadConfig makes.
  validate_config-Silent :
      (cfg : Config)
      → koala_v.Config.Check.validate_config net cfg ≡ []
      → validate_config cfg ≡ none
  unfolding koala_v.Config.Check.validate_config validate_config
  validate_config-Silent cfg h =
      let h₁ = rules_ref_silent cfg.rules _ h in
      let h₂ = metrics_silent cfg.metrics _ h₁ in
      let (level, format, h₃) = logging_silent cfg.logging _ h₂ in
      let (typ, h₄) = storage_silent cfg.storage _ h₃ in
      let (listen, address) = server_silent cfg.server _ h₄ in
      ground (
        arith,
        level,
        format,
        typ,
        listen,
        text_eq_iff (bytes "local") cfg.storage.typ,
        text_eq_iff (bytes "redis") cfg.storage.typ,
        text_eq_iff cfg.storage.typ (bytes "local"),
        text_eq_iff cfg.storage.typ (bytes "redis"),
      )
