-- ===== src/Api/RateLimit.antt =====
-- internal/api/middleware.go: RateLimitMiddleware. A call is one step under the mutex; `range` visits
-- the keys in the order of the table.
pub mod Valid
pub mod Cleanup
pub mod Windows
use koala_v.Prelude.{
  ℤ, pos, ◌+ℤ◌, ◌-ℤ◌, ltb_ℤ, leb_ℤ, wrap64, Text, Table, lookup, insert, delete, keys, length, ℕ,
  List, [], ◌∷◌, Bool, true, false, not, ◌||◌, Option, none, some, if◌then◌else◌,
}

pub record RateLimitCounter : Type 0 where
  pub count : ℤ
  pub window_end : ℤ
  pub last_access : ℤ

pub record RateLimit : Type 0 where
  pub counters : Table RateLimitCounter
  pub limit : ℤ
  pub window : ℤ
  pub cleanup_interval : ℤ
  pub stopped : Bool

unfoldable pub new_rate_limit : ℤ → ℤ → RateLimit
new_rate_limit limit window = record {
  counters = [];
  limit = limit;
  window = window;
  cleanup_interval = pos 60000000000;
  stopped = false;
}

abbrev pub set_cleanup_interval : ℤ → RateLimit → RateLimit
set_cleanup_interval interval r = record r { cleanup_interval = interval }

abbrev pub counters_len : RateLimit → ℕ
counters_len r = length r.counters

-- Closing the channel a second time is avoided by the select.
abbrev pub stop_cleanup : RateLimit → RateLimit
stop_cleanup r = if r.stopped then r else record r { stopped = true }

-- `!exists || now.After(counter.windowEnd)` is false: the counter of the open window.
unfoldable pub open_window : ℤ → Option RateLimitCounter → Option RateLimitCounter
open_window now none = none
open_window now (some c) = if ltb_ℤ c.window_end now then none else some c

abbrev pub fresh_counter : ℤ → ℤ → RateLimitCounter
fresh_counter now window = record { count = pos 1; window_end = now +ℤ window; last_access = now }

-- The counter that a request leaves.
unfoldable pub count_request : ℤ → ℤ → ℤ → Option RateLimitCounter → RateLimitCounter
count_request now limit window none = fresh_counter now window
count_request now limit window (some c) =
    if leb_ℤ limit c.count
    then record c { last_access = now }
    else record c { count = wrap64 (c.count +ℤ pos 1); last_access = now }

-- Whether the request goes on to the handler; it is answered with status 429 otherwise.
unfoldable pub passes : ℤ → Option RateLimitCounter → Bool
passes limit none = true
passes limit (some c) = not (leb_ℤ limit c.count)

unfoldable pub handle : ℤ → Text → RateLimit → Bool × RateLimit
unfolding open_window count_request passes
handle now ip r =
    let counter = open_window now (lookup ip r.counters) in
    (
      passes r.limit counter,
      record r { counters = insert ip (count_request now r.limit r.window counter) r.counters },
    )

-- `now.Sub(counter.lastAccess) > r.window`.
abbrev pub is_stale : ℤ → ℤ → RateLimitCounter → Bool
is_stale now window c = ltb_ℤ window (now -ℤ c.last_access)

unfoldable pub sweep_key : ℤ → ℤ → Text → Table RateLimitCounter → Table RateLimitCounter
sweep_key now window ip m = elim (lookup ip m) [
  | none ↦ m
  | some c ↦ if is_stale now window c then delete ip m else m
]

unfoldable pub sweep : ℤ → ℤ → List Text → Table RateLimitCounter → Table RateLimitCounter
unfolding sweep_key
sweep now window [] m = m
sweep now window (ip ∷ ips) m = sweep now window ips (sweep_key now window ip m)

unfoldable pub cleanup : ℤ → RateLimit → RateLimit
unfolding sweep
cleanup now r = record r { counters = sweep now r.window (keys r.counters) r.counters }
