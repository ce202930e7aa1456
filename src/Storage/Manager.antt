-- ===== src/Storage/Manager.antt =====
-- internal/storage/manager/manager.go: a primary and a fallback storage behind one interface. The
-- fallback is taken to be there (New is called with one); `has_primary` is `m.primary != nil`, and
-- the state of the primary is not used without it. Atomics and locks make each step one step here.
pub mod Valid
pub mod Failover
pub mod Missing
pub mod Run
pub mod Instance
use koala_v.Prelude.{
  ℤ, pos, ◌+ℤ◌, leb_ℤ, wrap32, Bool, true, false, not, ◌&&◌, ◌||◌, Option, none, some,
  if◌then◌else◌,
}
use koala_v.Storage.{Storage, Call, Action, Error}

-- Which storage `current` points to.
pub data Backend : Type 0 where
  primary fallback : Backend

pub record Options : Type 0 where
  pub has_primary : Bool
  pub max_failures : ℤ
  pub health_check_interval : ℤ
  pub recovery_interval : ℤ

pub record StorageManager (P F : Type 0) : Type 0 where
  pub has_primary : Bool
  pub primary : P
  pub fallback : F
  pub current : Backend
  pub failures : ℤ
  pub max_failures : ℤ
  pub degraded : Bool
  pub closed : Bool
  pub health_check_interval : ℤ
  pub recovery_interval : ℤ

-- DefaultOptions: three failures, five and ten seconds.
unfoldable pub default_options : Bool → Options
default_options has_primary = record {
  has_primary = has_primary;
  max_failures = pos 3;
  health_check_interval = pos 5000000000;
  recovery_interval = pos 10000000000;
}

abbrev or_default : ℤ → ℤ → ℤ
or_default z d = if leb_ℤ z (pos 0) then d else z

module _ {P F : Type 0} where
  unfoldable pub new_with_options : Options → P → F → StorageManager P F
  new_with_options opts p f = record {
    has_primary = opts.has_primary;
    primary = p;
    fallback = f;
    current = if opts.has_primary then primary else fallback;
    failures = pos 0;
    max_failures = wrap32 (or_default opts.max_failures (pos 3));
    degraded = false;
    closed = false;
    health_check_interval = or_default opts.health_check_interval (pos 5000000000);
    recovery_interval = or_default opts.recovery_interval (pos 10000000000);
  }

  unfoldable pub new : Bool → P → F → StorageManager P F
  unfolding default_options new_with_options
  new has_primary = new_with_options (default_options has_primary)

  unfoldable pub degrade : StorageManager P F → StorageManager P F
  degrade m = if m.degraded then m else record m { degraded = true; current = fallback }

  unfoldable pub recover : StorageManager P F → StorageManager P F
  recover m =
      if not m.degraded || not m.has_primary
      then m
      else record m { degraded = false; current = primary }

  unfoldable pub record_failure : StorageManager P F → StorageManager P F
  unfolding degrade
  record_failure m =
      let n = wrap32 (m.failures +ℤ pos 1) in
      let m' = record m { failures = n } in
      if leb_ℤ m.max_failures n && not m'.degraded then degrade m' else m'

  unfoldable pub record_success : StorageManager P F → StorageManager P F
  unfolding recover
  record_success m =
      let m' = record m { failures = pos 0 } in if m'.degraded then recover m' else m'

  unfoldable pub check_health : Storage P → ℤ → StorageManager P F → StorageManager P F
  check_health store now m =
      if not m.has_primary
      then m
      else (let (err, p) = store.ping now m.primary in
          let m' = record m { primary = p } in
          elim err [ none ↦ record_success m' | some e ↦ record_failure m' ])

abbrev is_error : Option Error → Bool
is_error none = false
is_error (some e) = true

-- The function that the code is given is one on any storage; here it is given at both.
module _ {P F A : Type 0} (fp : Call P A) (ff : Call F A) where
  -- `fn(m.getCurrent())`.
  unfoldable pub on_current : Call (StorageManager P F) A
  on_current m = elim m.current [
    | primary ↦ let (v, err, p) = fp m.primary in (v, err, record m { primary = p })
    | fallback ↦ let (v, err, f) = ff m.fallback in (v, err, record m { fallback = f })
  ]

  -- executeWithFailoverString, -Int64, -Bool and -Slice.
  unfoldable pub execute : Call (StorageManager P F) A
  execute m =
      let (v, err, m') = on_current m in
      if is_error err && m'.has_primary && not m'.degraded
      then (let m'' = record_failure m' in
          if m''.degraded
          then (let (v', err', f) = ff m''.fallback in (v', err', record m'' { fallback = f }))
          else (v, err, m''))
      else (v, err, m')

module _ {P F : Type 0} (fp : Action P) (ff : Action F) where
  unfoldable pub action_on_current : Action (StorageManager P F)
  action_on_current m = elim m.current [
    | primary ↦ let (err, p) = fp m.primary in (err, record m { primary = p })
    | fallback ↦ let (err, f) = ff m.fallback in (err, record m { fallback = f })
  ]

  -- executeWithFailover.
  unfoldable pub execute_action : Action (StorageManager P F)
  execute_action m =
      let (err, m') = action_on_current m in
      if is_error err && m'.has_primary && not m'.degraded
      then (let m'' = record_failure m' in
          if m''.degraded
          then (let (err', f) = ff m''.fallback in (err', record m'' { fallback = f }))
          else (err, m''))
      else (err, m')
