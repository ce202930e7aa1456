-- ===== src/Startup/Main.antt =====
-- cmd/koala/main.go: main, from the flags to the server that listens, and startConfigWatcher. What
-- the storages are made from, the files, fsnotify and the end of ListenAndServe are parameters; `none`
-- is an error.
pub mod Ready
pub mod Launched
pub mod Answer
pub mod Shutdown
use koala_v.Prelude.{
  ℤ, pos, ltb_ℤ, Text, Table, List, [], ◌∷◌, Bool, true, false, Option, none, some, ◌⊎◌, inl, inr,
  if◌then◌else◌,
}
use koala_v.Storage.{Storage}
use koala_v.Storage.Redis
use koala_v.Storage.Manager.{StorageManager}
use koala_v.Storage.Manager.Instance.{manager_storage}
use koala_v.Rules.{RulesConfig}
use koala_v.Rules.Load.{load_rules}
use koala_v.Rules.Load
use koala_v.Dict.{DictManager, new_dict_manager, load_dicts}
use koala_v.Matcher.Dict.{Dicts}
use koala_v.Config.{Config, load_config}
use koala_v.Config
use koala_v.Engine.{Engine, with_storage, with_dicts}
use koala_v.Engine
use koala_v.Engine.Build.{BuildError}
use koala_v.Engine.Bridge.{sync_dicts_to_matcher}
use koala_v.Watcher.{Watcher, Files, new_watcher}
use koala_v.Watcher.Reload.{Disk, ConfigWatcher, new_config_watcher, load, start_watching}
use koala_v.Watcher.Served.{on_change}
use koala_v.Api.Router.{RouterConfig, ServeError}
use koala_v.Api.Router
use koala_v.Startup.{LocalOptions, init_storage}
use koala_v.Startup.Dispatch.{either_storage}

-- The calls of log.Fatalf.
pub data Fatal (E : Type 0) : Type 0 where
  config_fatal : Config.LoadError E → Fatal E
  storage_fatal dicts_fatal : Fatal E
  rules_fatal : Load.LoadError E → Fatal E
  engine_fatal : BuildError → Fatal E
  server_fatal : ServeError → Fatal E

-- What the callback of startConfigWatcher changes, and the watcher with its callbacks.
abbrev pub Reloading : Type 0 → Type 0 → Type 0
Reloading S F = ConfigWatcher × Watcher (ConfigWatcher × (Engine S × Dicts)) F

-- The program when its server runs.
pub record Program (S F : Type 0) : Type 0 where
  pub engine : Engine S
  pub matcher : Dicts
  pub dict_manager : DictManager
  pub state : S
  pub router_config : RouterConfig
  pub listen : Text
  pub shutdown_timeout : ℤ
  pub watcher : Option (Reloading S F)

pub data Started (S F E : Type 0) : Type 0 where
  version_shown : Started S F E
  failed : Fatal E → Started S F E
  serving : Program S F → Started S F E

-- `none` when a step fails: NewConfigWatcher, Load or StartWatching. fsnotify gives `fs`.
unfoldable pub start_config_watcher :
    {S F E : Type 0}
    → Disk E
    → Files F
    → Option F
    → Text
    → Config
    → DictManager
    → Option (Reloading S F)
unfolding load start_watching new_watcher
start_config_watcher disk files fs config_file cfg dict_manager = elim fs [
  | none ↦ none
  | some f ↦
      let (err, cw) = load disk (new_config_watcher config_file) in
      elim err [
        | some e ↦ none
        | none ↦
            let (err₁, w) =
              start_watching disk (on_change disk cfg.rules.file dict_manager) files cw
                (new_watcher f (pos 100000000)) in
            elim err₁ [ some e ↦ none | none ↦ some (cw, w) ]
      ]
]

-- The dictionaries of the rules, if there are any.
unfoldable pub dicts_for : (Text → Option (List Text)) → Table Text → Option DictManager
unfolding load_dicts
dicts_for read [] = some new_dict_manager
dicts_for read (d ∷ ds) = load_dicts read (d ∷ ds)

unfoldable pub router_config_of : Config → RouterConfig
router_config_of cfg = record {
  request_timeout = cfg.server.read_timeout;
  enable_cors = true;
  cors_allow_origins = [];
  enable_metrics = cfg.metrics.enabled;
  rate_limit_per_second = pos 0;
}

-- What the program finds: what makes the storages and their methods, the files, and fsnotify.
pub record Environment (R L E F : Type 0) : Type 0 where
  pub new_local : LocalOptions → Option L
  pub new_redis : Redis.Options → Option R
  pub local : Storage L
  pub redis : Storage R
  pub disk : Disk E
  pub files : Files F
  pub fs : Option F

-- The state of the storage that was chosen.
abbrev pub State : Type 0 → Type 0 → Type 0
State R L = L ⊎ StorageManager R L

module _ {R L E F : Type 0} (env : Environment R L E F) where
  abbrev pub storage : Storage (State R L)
  storage = either_storage env.local (manager_storage env.redis env.local)

  -- The server with an engine, after its rules have been loaded.
  unfoldable pub run_server :
      Text
      → Config
      → DictManager
      → State R L
      → Option BuildError × Engine (State R L)
      → Started (State R L) F E
  unfolding start_config_watcher router_config_of sync_dicts_to_matcher
  run_server config_file cfg dict_manager state (some e, engine) = failed (engine_fatal e)
  run_server config_file cfg dict_manager state (none, engine) = serving (record {
    engine = engine;
    matcher = sync_dicts_to_matcher (some dict_manager) [];
    dict_manager = dict_manager;
    state = state;
    router_config = router_config_of cfg;
    listen = cfg.server.listen;
    shutdown_timeout = cfg.server.shutdown_timeout;
    watcher =
        if ltb_ℤ (pos 0) cfg.rules.reload_interval
        then start_config_watcher env.disk env.files env.fs config_file cfg dict_manager
        else none;
  })

  unfoldable pub main : Bool → Text → Started (State R L) F E
  unfolding load_config load_rules dicts_for run_server init_storage
  main version config_file =
      if version then version_shown else elim (load_config env.disk.decode_config config_file) [
        | inl e ↦ failed (config_fatal e)
        | inr cfg ↦ elim (init_storage env.new_local env.new_redis cfg) [
          | none ↦ failed storage_fatal
          | some state ↦ elim (load_rules env.disk.decode_rules cfg.rules.file) [
            | inl e ↦ failed (rules_fatal e)
            | inr rules ↦ elim (dicts_for env.disk.read rules.dicts) [
              | none ↦ failed dicts_fatal
              | some dict_manager ↦ run_server config_file cfg dict_manager state (
                  Engine.load_rules rules
                    (Engine.new (with_storage storage ∷ with_dicts dict_manager ∷ [])))
            ]
          ]
        ]
      ]

-- The goroutine of main that runs the server. `listened` is what ListenAndServe on an address ends with
-- before a signal comes, or none while it serves.
unfoldable pub launch :
    {S F E : Type 0} → (Text → Option ServeError) → Started S F E → Started S F E
unfolding Router.run
launch listened version_shown = version_shown
launch listened (failed e) = failed e
launch listened (serving p) = elim (Router.run (listened p.listen)) [
  | some e ↦ failed (server_fatal e)
  | none ↦ serving p
]
