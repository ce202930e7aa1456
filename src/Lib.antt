-- ===== src/Lib.antt =====
-- Koala V2: rate limiting and access control by rules.
--
-- A request (Engine.Message) meets the rules of a rule set (Engine.Matching) in the order whitelist,
-- blacklist, business, post, advanced, default. A rule matches when the patterns of all its fields
-- match (Matcher). A rate rule asks its algorithm (Algorithm) whether the limit is reached; the
-- algorithm keeps counters or timestamps in a storage (Storage), which is the local one
-- (Storage.Local) or the manager (Storage.Manager), which falls back from a primary to a second
-- storage. Rule sets are built (Engine.Build) from the configuration (Rules), and dictionaries (Dict)
-- are copied into the matcher (Engine.Bridge).
--
-- The files:
--   Prelude            Boolean tests, texts as bytes, integers, lists, Go maps as association lists
--   Storage            internal/storage/interface.go; Storage/Laws states what clients rely on, as
--                      records of laws over a view of the counters and of the lists
--   Storage/Local      internal/storage/local/local.go: Counters, Lists, Strings, Cleanup, Instance;
--                      Strings/Written states what its string operations are to read
--   Storage/Manager    internal/storage/manager/manager.go
--   Algorithm          internal/engine/algorithm/*.go
--   Matcher            internal/engine/matcher/*.go
--   Storage/Redis      internal/storage/redis/redis.go: Instance; the documented behaviour of the
--                      commands, as hypotheses, is in Server and Counters
--   Storage/Sequences  what a storage promises of its lists, as a specification; Storage/Closed, what a
--                      closed storage answers
--   Rules              internal/config/rules.go: Validate, Load, Time
--   Dict               internal/config/dict.go
--   Engine             internal/engine/{engine,rule,request,dict_bridge}.go, and in Engine/Adapter
--                      EngineAdapter of cmd/koala/main.go
--   Api                internal/api: Types, Handler, RateLimit, Metrics, Cors, Numbers, Health; and
--                      NewRouter in Context, Middleware and Router; Router/Expected is what
--                      its chain is to send and log
--   Errors             pkg/errors/errors.go, with errors.As
--   Logger             pkg/logger/logger.go, over log/slog
--   Config             internal/config/config.go, Size, and internal/config/validate.go in Check
--                      and RuleCheck
--   Watcher            internal/config/watcher.go; Reload is ConfigWatcher, and Served is what
--                      startConfigWatcher of cmd/koala/main.go does on a change
--   Startup            initStorage of cmd/koala/main.go; Dispatch is the interface over the storages
--                      that it returns, and Main is main and startConfigWatcher, with the end of
--                      main in Main/Shutdown
--   Tests              the theorems at concrete inputs
--
-- The HTTP handlers (Api.Handler) call the engine through EngineAdapter (Engine.Adapter). The
-- configuration (Config) is loaded, validated and watched (Watcher); a change of the rules file
-- reaches the engine through Watcher.Served. A request passes the middlewares of Api.Middleware in the
-- order of Api.Router.chain, and Startup.Main puts all the parts together.
--
-- Conventions. A call that returns (value, error) is a function from a state to the value, the error
-- (none for nil) and the state it leaves. `time.Now()` is an argument `now` in nanoseconds, one
-- instant for each call of the storage's interface or of the engine, also where the code reads the
-- clock more than once; instants and times to live are not bounded, while int64 and int32 arithmetic
-- on counters wraps around, and so do the products and differences of durations that the code forms.
-- The difference of two instants (Time.Sub), which saturates at 292 years, is exact.
-- Maps iterate in the order of their association list, as one of the orders that Go may take. All
-- loops are structural, except that the buffer of 20 bytes that a number is printed into bounds the
-- loop of intToString and of uintToString; every number of 64 bits fits.
--
-- Parameters: the string cache of ristretto (Storage.Local.Ristretto), the lines of a file (Dict), the
-- go-redis client (Storage.Redis.Client), the TOML decoder and time.ParseDuration, what is used of net
-- and fmt (Config.Check.Net), fsnotify and filepath (Watcher.Files), and the storages behind the
-- manager, the algorithms and the engine. The storage that the manager falls back to is taken to be
-- there.
--
-- Not modelled: locks, atomics and goroutines (a call is one step, except that the goroutines of
-- Handler.Batch run in any order in Api.Handler.Batch); the timers that call cleanups and health
-- checks; gin, which looks up routes, decodes bodies and sends answers (what it finds is an argument);
-- the rendering of a line by slog, and the lines that the handlers and the engine log; how main waits
-- for the signal; http.Server (what its Shutdown answers and what ListenAndServe ends with are
-- arguments). strings.TrimSpace and strings.ToLower are modelled for ASCII.
pub mod Prelude
pub mod Storage
pub mod Algorithm
pub mod Matcher
pub mod Rules
pub mod Dict
pub mod Engine
pub mod Errors
pub mod Logger
pub mod Api
pub mod Config
pub mod Watcher
pub mod Startup
pub mod Tests
