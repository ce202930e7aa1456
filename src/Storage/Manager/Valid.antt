-- ===== src/Storage/Manager/Valid.antt =====
-- The invariant of StorageManager.
use koala_v.Prelude.{
  ℤ, pos, ◌≤ℤ◌, ◌<ℤ◌, ◌+ℤ◌, wrap32, true, false, not, ◌||◌, ◌≡◌, arith, if◌then◌else◌,
}
use koala_v.Storage.{Storage, Call, Action}
use koala_v.Storage.Manager.{
  StorageManager, Options, primary, fallback, new_with_options, record_failure, record_success,
  check_health, on_current, action_on_current, execute, execute_action,
}

pub record IsValid {P F : Type 0} (m : StorageManager P F) : Type 0 where
  pub points_to : m.current ≡ (if m.degraded || not m.has_primary then fallback else primary)
  pub degraded_primary : m.degraded ≡ true → m.has_primary ≡ true
  pub positive : pos 0 <ℤ m.max_failures
  pub bounded : m.max_failures <ℤ pos 2147483648
  pub counts : m.degraded ≡ false → pos 0 ≤ℤ m.failures
  pub below : m.degraded ≡ false → m.failures <ℤ m.max_failures

module _ {P F : Type 0} (m : StorageManager P F) where
  record_failure-IsValid : IsValid m → m.has_primary ≡ true → IsValid (record_failure m)
  unfolding record_failure wrap32 ◌+ℤ◌
  record_failure-IsValid v h = ground arith

  record_success-IsValid : IsValid m → IsValid (record_success m)
  unfolding record_success
  record_success-IsValid v = ground arith

module _ {P F : Type 0} where
  -- A new manager is valid for all options with a limit of failures below 2^31.
  pub new_with_options-IsValid :
      (opts : Options) (p : P) (f : F)
      → opts.max_failures <ℤ pos 2147483648
      → IsValid (new_with_options opts p f)
  unfolding new_with_options wrap32
  new_with_options-IsValid opts p f h = ground arith

  -- A health check keeps a manager valid, whatever the ping of the primary returns.
  pub check_health-IsValid :
      (store : Storage P) (now : ℤ) (m : StorageManager P F)
      → IsValid m
      → IsValid (check_health store now m)
  unfolding check_health record_failure record_success wrap32 ◌+ℤ◌
  check_health-IsValid store now m v = ground arith

module _ {P F A : Type 0} (fp : Call P A) (ff : Call F A) (m : StorageManager P F) where
  -- A call that returns a value keeps a manager valid, whatever the two backends do.
  pub execute-IsValid : IsValid m → IsValid (execute fp ff m).2
  unfolding execute on_current record_failure wrap32 ◌+ℤ◌
  execute-IsValid v = ground arith

module _ {P F : Type 0} (fp : Action P) (ff : Action F) (m : StorageManager P F) where
  -- A call that returns an error alone keeps a manager valid, whatever the two backends do.
  pub execute_action-IsValid : IsValid m → IsValid (execute_action fp ff m).1
  unfolding execute_action action_on_current record_failure wrap32 ◌+ℤ◌
  execute_action-IsValid v = ground arith
