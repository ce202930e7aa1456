-- ===== src/Api/Router.antt =====
-- internal/api/router.go: NewRouter, as the chain of middlewares around the handlers, and the handlers
-- Health and Ready of internal/api/handler.go. Parameters: gin's lookup of a route, and its decoding
-- of a body. The goroutines of Batch run in the order of the items here.
pub mod Expected
pub mod Accounts
pub mod Answers
pub mod Alive
pub mod Told
use koala_v.Prelude.{
  ℕ, ℤ, pos, negsuc, ltb_ℤ, Text, bytes, utf8, List, [], ◌∷◌, Bool, true, false, Option, none, some,
  if◌then◌else◌,
}
use koala_v.Logger.{Globals}
use koala_v.Api.Types.{ApiRequest, BatchItem, BatchResult, EngineApi}
use koala_v.Api.Handler.{Answer}
use koala_v.Api.Handler
use koala_v.Api.Handler.Batch.{Slot, waiting, done, crashed, batch, rejected, started, run_slots}
use koala_v.Api.Metrics.{build_prometheus_metrics}
use koala_v.Api.Context.{
  Body, api, batch_results, health, ready_status, page, no_body, Reply, wrote, panicked, died,
  Context, Field, World, Handling, Clock, HealthResponse, ReadyResponse,
}
use koala_v.Api.Middleware.{
  timeout_middleware, metrics_middleware, cors_middleware, logging_middleware, recovery_middleware,
}

pub record RouterConfig : Type 0 where
  pub request_timeout : ℤ
  pub enable_cors : Bool
  pub cors_allow_origins : List Text
  pub enable_metrics : Bool
  pub rate_limit_per_second : ℤ

abbrev pub default_router_config : RouterConfig
default_router_config = record {
  request_timeout = pos 30000000000;
  enable_cors = true;
  cors_allow_origins = [];
  enable_metrics = true;
  rate_limit_per_second = pos 10000;
}

-- A nil configuration.
abbrev pub config_or_default : Option RouterConfig → RouterConfig
config_or_default none = default_router_config
config_or_default (some config) = config

pub data Endpoint : Type 0 where
  health_endpoint ready_endpoint metrics_endpoint : Endpoint
  browse_endpoint update_endpoint batch_endpoint : Endpoint

pub record Route : Type 0 where
  pub method : Text
  pub pattern : Text
  pub endpoint : Endpoint

abbrev route : Text → Text → Endpoint → Route
route method pattern endpoint = record { method = method; pattern = pattern; endpoint = endpoint }

-- The routes that NewRouter registers.
unfoldable pub routes : List Route
routes =
    route (bytes "GET") (bytes "/health") health_endpoint
    ∷ route (bytes "GET") (bytes "/ready") ready_endpoint
    ∷ route (bytes "GET") (bytes "/metrics") metrics_endpoint
    ∷ route (bytes "POST") (bytes "/api/v1/browse") browse_endpoint
    ∷ route (bytes "POST") (bytes "/api/v1/update") update_endpoint
    ∷ route (bytes "POST") (bytes "/api/v1/batch") batch_endpoint
    ∷ []

-- What gin does with a method and a path: a route, no route, or a redirection, with its status, of a
-- path that differs from a route's in its last slash, which runs no middleware.
pub data Found : Type 0 where
  matched : Route → Found
  missing : Found
  redirected : ℤ → Found

abbrev pub reply_of : Answer → Reply
reply_of (Answer.json status body) = wrote status (api body)
reply_of Answer.panicked = panicked

-- The results, if no goroutine has crashed: one that waits has not run.
unfoldable pub results_of : List Slot → Option (List BatchResult)
results_of [] = some []
results_of (waiting item ∷ slots) = none
results_of (crashed ∷ slots) = none
results_of (done result ∷ slots) = elim (results_of slots) [
  | none ↦ none
  | some results ↦ some (result ∷ results)
]

abbrev batch_reply : Option (List BatchResult) → Reply
batch_reply none = died
batch_reply (some results) = wrote (pos 200) (batch_results results)

abbrev page_reply : Option Text → Reply
page_reply none = panicked
page_reply (some t) = wrote (pos 200) (page t)

-- Gin's decoding of a body, for the two types of body.
pub record Binding : Type 0 where
  pub request : Option Text → Option ApiRequest
  pub items : Option Text → Option (List BatchItem)

-- Handler.Health and Handler.Ready.
abbrev pub health_handler : Clock → Reply
health_handler clock =
    wrote (pos 200) (health (record { status = bytes "ok"; timestamp = clock.timestamp }))

abbrev pub ready_handler : Clock → Reply
ready_handler clock =
    wrote (pos 200)
      (ready_status (record { ready = true; message = []; timestamp = clock.timestamp }))

-- When no route is found.
module _ {W S : Type 0} where
  abbrev pub not_found : Handling W S
  not_found c w = (wrote (pos 404) (page (bytes "404 page not found")), c, w)

module _ {W S : Type 0} (g : Globals W Field) (clock : Clock) where
  -- The middlewares that NewRouter installs, the outermost first.
  unfoldable pub chain : RouterConfig → Handling W S → Handling W S
  unfolding recovery_middleware logging_middleware cors_middleware timeout_middleware
      metrics_middleware
  chain config handler =
      let metered = if config.enable_metrics then metrics_middleware clock handler else handler in
      let timed =
        if ltb_ℤ (pos 0) config.request_timeout
        then timeout_middleware config.request_timeout clock metered
        else metered in
      let shared =
        if config.enable_cors then cors_middleware config.cors_allow_origins timed else timed in
      recovery_middleware g (logging_middleware g clock shared)

module _ {S Err : Type 0} (engine : EngineApi S Err) where
  -- Handler.Batch.
  unfoldable pub batch_handler : Option (List BatchItem) → S → Reply × S
  unfolding batch run_slots results_of
  batch_handler items s = elim (batch items) [
    | rejected answer ↦ (reply_of answer, s)
    | started slots ↦
        let (slots₁, s₁) = run_slots engine slots s in (batch_reply (results_of slots₁), s₁)
  ]

module _ {W S Err : Type 0} (engine : EngineApi S Err) (binding : Binding) where
  abbrev pub answered : Answer × S → Context → World W S → Reply × Context × World W S
  answered (answer, s) c w = (reply_of answer, c, record w { state = s })

  abbrev replied : Reply × S → Context → World W S → Reply × Context × World W S
  replied (reply, s) c w = (reply, c, record w { state = s })

  -- The handlers, which the last middleware runs.
  unfoldable pub run_endpoint : Bool → Clock → Endpoint → Handling W S
  unfolding batch_handler
  run_endpoint enable_metrics clock health_endpoint c w = (health_handler clock, c, w)
  run_endpoint enable_metrics clock ready_endpoint c w = (ready_handler clock, c, w)
  run_endpoint enable_metrics clock metrics_endpoint c w = (
    page_reply (build_prometheus_metrics (if enable_metrics then some w.metrics else none)),
    c,
    w,
  )
  run_endpoint enable_metrics clock browse_endpoint c w =
      answered (koala_v.Api.Handler.browse engine (binding.request c.body) w.state) c w
  run_endpoint enable_metrics clock update_endpoint c w =
      answered (koala_v.Api.Handler.update engine (binding.request c.body) w.state) c w
  run_endpoint enable_metrics clock batch_endpoint c w =
      replied (batch_handler engine (binding.items c.body) w.state) c w

  module _ (g : Globals W Field) (clock : Clock) where
    -- A request, once gin has looked for its route.
    unfoldable pub serve : Option RouterConfig → Found → Handling W S
    unfolding chain run_endpoint
    serve config (matched r) c w =
        chain g clock (config_or_default config)
          (run_endpoint (config_or_default config).enable_metrics clock r.endpoint)
          (record c { full_path = r.pattern }) w
    serve config missing c w =
        chain g clock (config_or_default config) not_found (record c { full_path = [] }) w
    serve config (redirected status) c w = (wrote status no_body, c, w)

-- What ListenAndServe ends with, and Server.Run: the server that was closed is no error.
pub data ServeError : Type 0 where
  server_closed : ServeError
  serve_failed : Text → ServeError

unfoldable pub run : Option ServeError → Option ServeError
run none = none
run (some server_closed) = none
run (some (serve_failed t)) = some (serve_failed t)
