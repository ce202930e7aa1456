-- ===== src/Storage/Redis.antt =====
-- internal/storage/redis/redis.go: RedisStorage. The go-redis client, with the server behind it, is a
-- parameter: a record of the commands that the code calls.
pub mod Instance
pub mod Server
pub mod Texts
pub mod Lists
pub mod Counters
pub mod Laws
use koala_v.Prelude.{[], pos, ℤ, Text, bytes, List, ◌++◌, Bool, true, false, Option, none, some}
use koala_v.Storage.{Error, backend}

-- `redis.Nil`, and every other error, by its text.
pub data RedisError : Type 0 where
  nil_reply : RedisError
  failed : Text → RedisError

-- Go's `(value, error)` of a command, and an error alone.
abbrev pub Reply : Type 0 → Type 0 → Type 0
Reply C A = C → A × Option RedisError × C

abbrev pub Status : Type 0 → Type 0
Status C = C → Option RedisError × C

-- The texts of `redis.Nil` and of the errors of `strconv.ParseInt`; the commands, at an instant; `eval` runs a script, which is given as what its commands do.
pub record Client (C : Type 0) : Type 0 where
  pub nil_text : Text
  pub parse_text : Text → Text
  pub get : ℤ → Text → Reply C Text
  pub get_int64 : ℤ → Text → Reply C ℤ
  pub set : ℤ → Text → Text → ℤ → Status C
  pub set_int64 : ℤ → Text → ℤ → ℤ → Status C
  pub del : ℤ → Text → Status C
  pub exists : ℤ → Text → Reply C ℤ
  pub expire : ℤ → Text → ℤ → Reply C Bool
  pub incr : ℤ → Text → Reply C ℤ
  pub incr_by : ℤ → Text → ℤ → Reply C ℤ
  pub p_expire : ℤ → Text → ℤ → Reply C Bool
  pub eval : Reply C ℤ → Reply C ℤ
  pub l_push : ℤ → Text → List ℤ → Status C
  pub l_len : ℤ → Text → Reply C ℤ
  pub l_index : ℤ → Text → ℤ → Reply C Text
  pub l_trim : ℤ → Text → ℤ → ℤ → Status C
  pub l_range : ℤ → Text → ℤ → ℤ → Reply C (List Text)
  pub ping : ℤ → Status C
  pub close : Status C

pub record RedisStorage (C : Type 0) : Type 0 where
  pub client : C
  pub key_prefix : Text
  pub closed : Bool

-- Config, which New hands to the client, but for the key prefix.
pub record Options : Type 0 where
  pub addr : Text
  pub password : Text
  pub db : ℤ
  pub pool_size : ℤ
  pub min_idle_conns : ℤ
  pub dial_timeout : ℤ
  pub read_timeout : ℤ
  pub write_timeout : ℤ
  pub key_prefix : Text

abbrev pub default_config : Options
default_config = record {
  addr = bytes "127.0.0.1:6379";
  password = [];
  db = pos 0;
  pool_size = pos 100;
  min_idle_conns = pos 10;
  dial_timeout = pos 5000000000;
  read_timeout = pos 3000000000;
  write_timeout = pos 3000000000;
  key_prefix = bytes "koala:";
}

abbrev pub new : {C : Type 0} → C → Text → RedisStorage C
new client key_prefix = record { client = client; key_prefix = key_prefix; closed = false }

-- The function New: its error is always nil, since `redis.NewClient` does not connect.
abbrev pub new_with : {C : Type 0} → (Options → C) → Options → RedisStorage C
new_with new_client cfg = new (new_client cfg) cfg.key_prefix

abbrev pub key_of : {C : Type 0} → RedisStorage C → Text → Text
key_of s k = s.key_prefix ++ k

module _ {C : Type 0} (client : Client C) where
  abbrev pub error_text : RedisError → Text
  error_text nil_reply = client.nil_text
  error_text (failed t) = t

  -- `fmt.Errorf("redis get: %w", err)`.
  abbrev pub wrap : Text → RedisError → Error
  wrap what e = backend (what ++ bytes ": " ++ error_text e)
