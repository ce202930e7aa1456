-- ===== src/Tests/Server.antt =====
-- The theorems of the server and of main at concrete inputs.
use koala_v.Prelude.{
  ◌↔◌, ℕ, pos, bytes, Text, Option, text_eq, lookup, insert, [], true, false, none, some, inl, inr,
  ◌≡◌, refl,
}
use koala_v.Logger.{Globals, initial}
use koala_v.Config.{Config, load_config, apply_defaults}
use koala_v.Rules.Load.{load_rules}
use koala_v.Dict.{new_dict_manager}
use koala_v.Engine.{Engine}
use koala_v.Api.Types.{ApiRequest}
use koala_v.Api.Handler.Served.{adapter}
use koala_v.Api.Metrics.{new_metrics_middleware}
use koala_v.Api.Context.{wrote, panicked, no_body, Context, Field, World, Handling, Clock}
use koala_v.Api.Router.{
  default_router_config, Route, browse_endpoint, missing, Binding, serve, chain,
}
use koala_v.Api.Router.Accounts.{seen, account, with_request_id, shared_with, chain-account}
use koala_v.Api.Router.Answers.{chain-preflight}
use koala_v.Api.Router.Expected.{with_lines, expected_lines}
use koala_v.Api.Router.Alive.{Answered, serve-Answered}
use koala_v.Startup.Main.{Environment, State, dicts_for}
use koala_v.Startup.Main.{launch}
use koala_v.Startup.Main.Ready.{start}
use koala_v.Startup.Main.Launched.{Launched, launch-start, GoesOn, Needs, launch-serving_iff}
use koala_v.Api.Router.{ServeError}
use koala_v.Tests.Data
use koala_v.Tests.Config.{server_config}
use koala_v.Tests.Data.{rules, store, empty, config}

abbrev logger : Globals ℕ Field
logger = initial 2

abbrev clock : Clock
clock = record {
  stamp = bytes "20260201000000";
  now = pos 0;
  logged_latency = pos 2;
  metered_latency = pos 1;
  timestamp = [];
}

abbrev options_request : Context
options_request = record {
  method = bytes "OPTIONS";
  path = bytes "/api/v1/browse";
  full_path = [];
  origin = bytes "https://a.example";
  request_id_header = bytes "r1";
  client_ip = bytes "10.0.0.1";
  body = none;
  headers = [];
  request_id = none;
  deadline = none;
}

abbrev post_request : Context
post_request = record options_request { method = bytes "POST"; body = some (bytes "{}") }

abbrev world : World ℕ ℕ
world = record { request_id_counter = 0; lines = []; metrics = new_metrics_middleware; state = 0 }

abbrev panics : Handling ℕ ℕ
panics c w = (panicked, c, w)

chain-account_example :
    chain logger clock default_router_config panics post_request world
    ≡ account logger clock default_router_config
        (bytes "r1")
        post_request
        (panics (seen default_router_config clock (bytes "r1") post_request) world)
unfolding text_eq
chain-account_example =
    chain-account logger clock default_router_config panics post_request world (bytes "r1") 0 refl
      (refl, refl)

chain-preflight_example : chain logger clock default_router_config panics options_request world ≡ (
  wrote (pos 204) no_body,
  shared_with default_router_config (with_request_id (bytes "r1") options_request),
  with_lines (expected_lines logger (bytes "r1") options_request clock (pos 204)) world,
)
unfolding text_eq
chain-preflight_example =
    chain-preflight logger clock default_router_config panics options_request world (bytes "r1") 0
      refl (refl, refl)

abbrev api_login : ApiRequest
api_login = record {
  act = bytes "login";
  uid = bytes "7";
  ip = bytes "10.9.0.1";
  did = [];
  ext = [];
  update = false;
}

abbrev binding : Binding
binding = record { request = λ b. some api_login; items = λ b. none }

abbrev engine : Engine Data.State
engine = record { rules = some rules; storage = some store; dicts = none }

abbrev store_world : World ℕ Data.State
store_world = record {
  request_id_counter = 0;
  lines = [];
  metrics = new_metrics_middleware;
  state = empty;
}

serve-Answered_example :
    Answered logger clock post_request store_world
      (serve (adapter engine [] (pos 5)) binding logger clock none missing post_request store_world)
serve-Answered_example =
    serve-Answered engine [] (pos 5) binding logger clock none missing post_request store_world refl

-- No Redis, no dictionaries, and no fsnotify.
abbrev pub environment : Environment Data.State Data.State Unit Unit
environment = record {
  new_local = λ options. some empty;
  new_redis = λ options. none;
  local = store;
  redis = store;
  disk = record {
    decode_config = λ path. inr server_config;
    decode_rules = λ path. inr config;
    read = λ path. none;
  };
  files = record {
    abs = λ t. some t;
    dir = λ t. [];
    add = λ t f. (true, f);
    close = λ f. (true, f);
  };
  fs = none;
}

abbrev loaded_config : Config
loaded_config = apply_defaults server_config

-- An address that is free.
abbrev serves : Text → Option ServeError
serves address = none

launch-start_example :
    Launched environment
      (bytes "koala.toml")
      loaded_config
      empty
      config
      new_dict_manager
      (b'v')
      (bytes "ip")
      (bytes "7")
      (serves loaded_config.server.listen)
      (launch serves (start environment (bytes "koala.toml")))
unfolding load_config load_rules dicts_for text_eq lookup insert
launch-start_example =
    launch-start environment (bytes "koala.toml") loaded_config empty config new_dict_manager (b'v')
      (bytes "ip") (bytes "7") serves refl refl refl refl

launch-serving_iff_example :
    GoesOn environment (bytes "koala.toml") serves ↔ Needs environment (bytes "koala.toml") serves
launch-serving_iff_example = launch-serving_iff environment (bytes "koala.toml") serves

abbrev browse_route : Route
browse_route = record {
  method = bytes "POST";
  pattern = bytes "/api/v1/browse";
  endpoint = browse_endpoint;
}

abbrev started_world : World ℕ (State Data.State Data.State)
started_world = record {
  request_id_counter = 0;
  lines = [];
  metrics = new_metrics_middleware;
  state = inl empty;
}
