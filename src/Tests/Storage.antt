-- ===== src/Tests/Storage.antt =====
-- The storage's theorems on small states.
use koala_v.Prelude.{
  ℤ, pos, negsuc, bytes, [], ◌∷◌, Bool, true, false, some, ◌≡◌, refl, arith, ◌+ℤ◌, lookup,
  if◌then◌else◌,
}
use koala_v.Storage.{Call, key_not_found, storage_closed}
use koala_v.Storage.Laws.{window}
use koala_v.Storage.Local.Counters.{get_int}
use koala_v.Storage.Local.Lists.{slice}
use koala_v.Storage.Local.Lists.Window.{slice-window}
use koala_v.Storage.Manager.{StorageManager, primary, fallback, execute}
use koala_v.Storage.Manager.Valid.{IsValid}
use koala_v.Storage.Manager.Failover.{execute_degrades}
use koala_v.Tests.Data.{State, empty, closed}

slice-window_example :
    slice (negsuc 1) (pos 9) (pos 1 ∷ pos 2 ∷ pos 3 ∷ [])
    ≡ window (negsuc 1) (pos 9) (pos 1 ∷ pos 2 ∷ pos 3 ∷ [])
slice-window_example = slice-window (negsuc 1) (pos 9) (pos 1 ∷ pos 2 ∷ pos 3 ∷ [])

-- A manager of two local storages, one failure from the limit when `failures` is 2.
abbrev managed : State → ℤ → Bool → StorageManager State State
managed p failures degraded = record {
  has_primary = true;
  primary = p;
  fallback = empty;
  current = if degraded then fallback else primary;
  failures = failures;
  max_failures = pos 3;
  degraded = degraded;
  closed = false;
  health_check_interval = pos 5000000000;
  recovery_interval = pos 10000000000;
}

fresh-IsValid : IsValid (managed closed (pos 2) false)
fresh-IsValid = record {
  points_to = refl;
  degraded_primary = λ d. refl;
  positive = omega arith;
  bounded = omega arith;
  counts = λ d. omega arith;
  below = λ d. omega arith;
}

abbrev reading : Call State ℤ
reading = get_int (pos 0) (bytes "k")

execute_degrades_example :
    execute reading reading (managed closed (pos 2) false)
    ≡ (pos 0, some key_not_found, record (managed closed (pos 3) true) { primary = closed })
unfolding get_int lookup ◌+ℤ◌
execute_degrades_example =
    execute_degrades reading reading (managed closed (pos 2) false) fresh-IsValid storage_closed
      refl refl refl (omega arith)
