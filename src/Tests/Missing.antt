-- ===== src/Tests/Missing.antt =====
-- A storage manager over a Redis server that holds no key.
use koala_v.Prelude.{pos, ◌+ℤ◌, bytes, [], ◌∷◌, true, false, some, ◌≡◌, refl, arith}
use koala_v.Storage.Redis.{Client, RedisStorage, nil_reply, new}
use koala_v.Storage.Redis.Instance.{redis_storage}
use koala_v.Storage.Manager.{StorageManager, primary}
use koala_v.Storage.Manager.Valid.{IsValid}
use koala_v.Storage.Manager.Missing.{gets, gets-degrade}
use koala_v.Tests.Data.{State, store, empty}
use koala_v.Tests.Redis.{idle}

abbrev empty_client : Client Unit
empty_client = record idle { get_int64 = λ now key c. (pos 0, some nil_reply, c) }

-- Two failures are left to the limit.
abbrev over_redis : StorageManager (RedisStorage Unit) State
over_redis = record {
  has_primary = true;
  primary = new tt (bytes "koala:");
  fallback = empty;
  current = primary;
  failures = pos 1;
  max_failures = pos 3;
  degraded = false;
  closed = false;
  health_check_interval = pos 5000000000;
  recovery_interval = pos 10000000000;
}

over_redis-IsValid : IsValid over_redis
over_redis-IsValid = record {
  points_to = refl;
  degraded_primary = λ d. refl;
  positive = omega arith;
  bounded = omega arith;
  counts = λ d. omega arith;
  below = λ d. omega arith;
}

gets-degrade_example :
    (gets
      (redis_storage empty_client)
      store
      (pos 5)
      (bytes "k" ∷ bytes "j" ∷ [])
      over_redis).degraded
    ≡ true
unfolding ◌+ℤ◌
gets-degrade_example =
    gets-degrade empty_client store (pos 5) (bytes "k" ∷ bytes "j" ∷ []) over_redis
      over_redis-IsValid refl refl refl (refl, (refl, tt)) refl
