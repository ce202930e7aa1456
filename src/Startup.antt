-- ===== src/Startup.antt =====
-- cmd/koala/main.go: initStorage, which chooses the storage from the configuration. What local.New and
-- redis.New make of their options is an argument, with `none` for an error.
pub mod Chosen
pub mod Dispatch
pub mod Refused
pub mod Main
use koala_v.Prelude.{
  [], ◌==◌, ℤ, pos, negsuc, Text, bytes, text_eq, Bool, true, false, Option, none, some, ◌⊎◌, inl,
  inr, if◌then◌else◌,
}
use koala_v.Storage.Redis
use koala_v.Config.{Config, is_zero}
use koala_v.Config.Size.{SizeError, get_max_size_bytes}
use koala_v.Storage.Manager.{StorageManager, Options, new_with_options}

pub record LocalOptions : Type 0 where
  pub max_cost : ℤ
  pub num_counters : ℤ
  pub buffer_items : ℤ

-- 512 MB if the size cannot be read, and 100000 counters if none are given.
abbrev or_512mb : SizeError ⊎ ℤ → ℤ
or_512mb (inl e) = pos 536870912
or_512mb (inr n) = n

unfoldable pub local_options : Config → LocalOptions
unfolding get_max_size_bytes
local_options cfg = record {
  max_cost = or_512mb (get_max_size_bytes cfg.storage.local);
  num_counters =
      if is_zero cfg.storage.local.num_counters then pos 100000 else cfg.storage.local.num_counters;
  buffer_items = pos 64;
}

-- The options of the Redis storage; the fields that are not given are zero.
unfoldable pub redis_options : Config → Redis.Options
redis_options cfg = record {
  addr = cfg.storage.redis.addr;
  password = cfg.storage.redis.password;
  db = cfg.storage.redis.db;
  pool_size = cfg.storage.redis.pool_size;
  min_idle_conns = pos 0;
  dial_timeout = cfg.storage.redis.dial_timeout;
  read_timeout = cfg.storage.redis.read_timeout;
  write_timeout = cfg.storage.redis.write_timeout;
  key_prefix = [];
}

abbrev pub manager_options : Options
manager_options = record {
  has_primary = true;
  max_failures = pos 3;
  health_check_interval = pos 5000000000;
  recovery_interval = pos 10000000000;
}

module _ {R L : Type 0} (new_local : LocalOptions → Option L)
    (new_redis : Redis.Options → Option R) where
  -- The local storage alone, or the manager of both; `none` is the error of the local storage.
  unfoldable pub init_storage : Config → Option (L ⊎ StorageManager R L)
  unfolding local_options redis_options new_with_options
  init_storage cfg = elim (new_local (local_options cfg)) [
    | none ↦ none
    | some l ↦
        if text_eq cfg.storage.typ (bytes "redis")
        then elim (new_redis (redis_options cfg)) [
          | none ↦ some (inl l)
          | some r ↦ some (inr (new_with_options manager_options r l))
        ]
        else some (inl l)
  ]
