-- ===== src/Storage/Manager/Failover.antt =====
-- Which backend serves a call of StorageManager, and when it changes.
use koala_v.Prelude.{
  ℤ, pos, ◌+ℤ◌, ◌≤ℤ◌, ◌<ℤ◌, leb_ℤ, wrap32, true, false, ◌≡◌, ◌⊎◌, none, some, arith,
}
use koala_v.Storage.{Storage, Call, Error}
use koala_v.Storage.Manager.{
  StorageManager, primary, fallback, check_health, on_current, execute, record_failure,
  record_success,
}
use koala_v.Storage.Manager.Valid.{IsValid}

module _ {P F A : Type 0} (fp : Call P A) (ff : Call F A) (m : StorageManager P F)
    (v : IsValid m) where
  -- While a manager with a primary is not degraded, a call goes to the primary. A success is
  -- returned as it is. A failure that leaves the count below the limit is returned and counted, and
  -- the fallback is not used. The failure that reaches the limit degrades the manager, and the
  -- caller gets what the fallback returns.
  pub execute_primary :
      m.has_primary ≡ true
      → m.degraded ≡ false
      → ((fp m.primary).1 ≡ none
          → execute fp ff m ≡ ((fp m.primary).0, none, record m { primary = (fp m.primary).2 }))
        × ((e : Error)
            → (fp m.primary).1 ≡ some e
            → m.failures +ℤ pos 1 <ℤ m.max_failures
            → execute fp ff m ≡ (
              (fp m.primary).0,
              some e,
              record m { primary = (fp m.primary).2; failures = m.failures +ℤ pos 1 },
            ))
        × ((e : Error)
            → (fp m.primary).1 ≡ some e
            → m.max_failures ≤ℤ m.failures +ℤ pos 1
            → execute fp ff m ≡ (
              (ff m.fallback).0,
              (ff m.fallback).1,
              record m {
                primary = (fp m.primary).2;
                fallback = (ff m.fallback).2;
                failures = m.failures +ℤ pos 1;
                degraded = true;
                current = fallback;
              },
            ))
  unfolding execute on_current record_failure wrap32 ◌+ℤ◌
  execute_primary h d = (ground arith, λ e failed few. ground arith, λ e failed many. ground arith)

  -- A valid manager that is not degraded, and whose primary fails for the last time that the limit
  -- allows: the caller gets what the fallback returns, and the manager is degraded.
  pub execute_degrades :
      (e : Error)
      → m.has_primary ≡ true
      → m.degraded ≡ false
      → (fp m.primary).1 ≡ some e
      → m.max_failures ≤ℤ m.failures +ℤ pos 1
      → execute fp ff m ≡ (
        (ff m.fallback).0,
        (ff m.fallback).1,
        record m {
          primary = (fp m.primary).2;
          fallback = (ff m.fallback).2;
          failures = m.failures +ℤ pos 1;
          degraded = true;
          current = fallback;
        },
      )
  execute_degrades e h d failed limit = (execute_primary h d).2 e failed limit

  -- A valid manager that is not degraded, and whose primary fails below the limit: the caller gets
  -- the primary's error, the failure is counted, and the fallback is not used.
  execute_counts :
      (e : Error)
      → m.has_primary ≡ true
      → m.degraded ≡ false
      → (fp m.primary).1 ≡ some e
      → m.failures +ℤ pos 1 <ℤ m.max_failures
      → execute fp ff m ≡ (
        (fp m.primary).0,
        some e,
        record m { primary = (fp m.primary).2; failures = m.failures +ℤ pos 1 },
      )
  execute_counts e h d failed limit = (execute_primary h d).1 e failed limit

  -- A valid manager that is degraded, or has no primary, is its fallback: the call returns what the
  -- fallback returns and changes only the fallback's state.
  pub execute_fallback :
      (m.degraded ≡ true) ⊎ (m.has_primary ≡ false)
      → execute fp ff m
        ≡ ((ff m.fallback).0, (ff m.fallback).1, record m { fallback = (ff m.fallback).2 })
  unfolding execute on_current
  execute_fallback h = ground arith

module _ {P F : Type 0} (store : Storage P) (now : ℤ) (m : StorageManager P F) (v : IsValid m) where
  -- A health check that reaches the primary makes it the current storage again and clears the count
  -- of failures, from any valid state; one that fails counts one more, and degrades at the limit.
  check_health_primary :
      m.has_primary ≡ true
      → ((store.ping now m.primary).0 ≡ none
          → check_health store now m ≡ record m {
            primary = (store.ping now m.primary).1;
            failures = pos 0;
            degraded = false;
            current = primary;
          })
        × ((e : Error)
            → (store.ping now m.primary).0 ≡ some e
            → m.degraded ≡ false
            → ((check_health store now m).degraded ≡ leb_ℤ m.max_failures (m.failures +ℤ pos 1))
              × ((check_health store now m).failures ≡ m.failures +ℤ pos 1))
  unfolding check_health record_failure record_success wrap32 ◌+ℤ◌
  check_health_primary h = (λ ok. ground arith, λ e failed d. ground arith)

  -- A health check that reaches the primary makes it the current storage again and clears the count
  -- of failures, from any valid state.
  check_health_recovers :
      m.has_primary ≡ true
      → (store.ping now m.primary).0 ≡ none
      → check_health store now m ≡ record m {
        primary = (store.ping now m.primary).1;
        failures = pos 0;
        degraded = false;
        current = primary;
      }
  check_health_recovers h ok = (check_health_primary h).0 ok

  -- A health check that does not reach the primary of a valid manager that is not degraded counts
  -- one more failure, and degrades the manager exactly at the limit.
  check_health_fails :
      (e : Error)
      → m.has_primary ≡ true
      → m.degraded ≡ false
      → (store.ping now m.primary).0 ≡ some e
      → ((check_health store now m).degraded ≡ leb_ℤ m.max_failures (m.failures +ℤ pos 1))
        × ((check_health store now m).failures ≡ m.failures +ℤ pos 1)
  check_health_fails e h d failed = (check_health_primary h).1 e failed d
