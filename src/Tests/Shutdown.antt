-- ===== src/Tests/Shutdown.antt =====
-- The end of main at a concrete input.
use koala_v.Prelude.{refl, ℕ, ℤ, pos, bytes, Text, [], Option, none, some, inl, ◌≡◌}
use koala_v.Watcher.{new_watcher}
use koala_v.Watcher.Reload.{new_config_watcher}
use koala_v.Startup.Main.{Program, State, storage}
use koala_v.Startup.Main.Shutdown.{finish, Quiet, Left, finish-Left}
use koala_v.Tests.Data
use koala_v.Tests.Data.{cache, empty}
use koala_v.Tests.Server.{environment}

-- A program that watches no file yet.
abbrev watching : Program (State Data.State Data.State) Unit
watching = record {
  engine = record { rules = none; storage = some (storage environment); dicts = none };
  matcher = [];
  dict_manager = koala_v.Dict.new_dict_manager;
  state = inl empty;
  router_config = koala_v.Api.Router.default_router_config;
  listen = bytes ":8080";
  shutdown_timeout = pos 30000000000;
  watcher = some (new_config_watcher (bytes "koala.toml"), new_watcher tt (pos 100000000));
}

-- The server that reports its timeout.
abbrev too_late : ℤ → ℕ → Option Text × ℕ
too_late timeout h = (some (bytes "deadline exceeded"), h)

finish-Left_example :
    let (err, h, q) = finish environment too_late 7 watching in
    ((err, h) ≡ too_late (pos 30000000000) 7)
    × Quiet environment q.watcher
    × Left environment watching.state q.state
    × (q.engine ≡ watching.engine)
finish-Left_example = finish-Left cache environment too_late 7 watching refl
