-- ===== src/Tests/Algorithm.antt =====
-- The algorithms' theorems over the local storage.
use koala_v.Prelude.{
  ℤ, pos, Text, bytes, List, [], ◌∷◌, true, false, none, ◌≡◌, ◌≢◌, refl, arith, leb_ℤ, ◌+ℤ◌, lookup,
  text_eq, inl, unix_milli, wrap64, ◌-ℤ◌, milliseconds,
}
use koala_v.Storage.Local.Counters.Live.{live, local_counter_laws}
use koala_v.Storage.Local.Lists.Reads.{items, local_list_laws}
use koala_v.Algorithm.Counter.{entry_of}
use koala_v.Algorithm.Count as Count
use koala_v.Algorithm.Count.Fixed.{browse-run_window}
use koala_v.Algorithm.Count.Fixed as Fixed
use koala_v.Algorithm.Base as Base
use koala_v.Algorithm.Base.Bound.{browse-run_threshold}
use koala_v.Algorithm.Base.Updates as Updates
use koala_v.Algorithm.Leak as Leak
use koala_v.Algorithm.Leak.Expiry.{in_window}
use koala_v.Algorithm.Leak.Sliding.{browse_sliding, browse_stale}
use koala_v.Tests.Data.{State, store, counter_laws, list_laws, empty, two_a_minute}

abbrev key : Text
key = bytes "k"

browse-run_window_example :
    ((Count.browse store
        (pos 2)
        key
        two_a_minute
        (Fixed.run store key two_a_minute (pos 0 ∷ pos 1 ∷ []) empty)).0
      ≡ true)
    × ((Count.browse store
          (pos 2)
          key
          two_a_minute
          (Fixed.run store key two_a_minute (pos 0 ∷ pos 1 ∷ []) empty)).1
        ≡ none)
    × (live (pos 2) key (Fixed.run store key two_a_minute (pos 0 ∷ pos 1 ∷ []) empty)
        ≡ entry_of 2 (pos 60000000000))
unfolding live lookup local_counter_laws ◌+ℤ◌
browse-run_window_example =
    browse-run_window store counter_laws key two_a_minute (pos 0) (pos 2) (pos 1 ∷ []) empty refl
      refl (omega arith) (omega arith, omega arith) (omega arith, tt) (omega arith)

browse-run_threshold_example :
    ((Base.browse store
        (pos 2)
        key
        two_a_minute
        (Updates.run store key two_a_minute (pos 0 ∷ pos 1 ∷ []) empty)).0
      ≡ false)
    × ((Base.browse store
          (pos 2)
          key
          two_a_minute
          (Updates.run store key two_a_minute (pos 0 ∷ pos 1 ∷ []) empty)).1
        ≡ none)
unfolding live lookup local_counter_laws ◌+ℤ◌
browse-run_threshold_example =
    browse-run_threshold store counter_laws key two_a_minute 1 refl (omega arith) (omega arith)
      (pos 0) (pos 2) (pos 1 ∷ []) empty refl refl refl (omega arith, omega arith) (omega arith, tt)
      (omega arith) (omega arith)

-- A list of timestamps, in milliseconds, newest first.
abbrev stamped : List ℤ → State
stamped xs = record empty { lists = (key, record { items = xs; expires = none }) ∷ [] }

abbrev later : ℤ
later = pos 100000000000

browse_sliding_example :
    (Leak.browse store later key two_a_minute (stamped (pos 99000 ∷ []))).0
    ≡ leb_ℤ (pos 2) (pos (in_window (Leak.window_start later two_a_minute) (pos 99000 ∷ [])))
unfolding items lookup local_list_laws text_eq Leak.window_start unix_milli wrap64 ◌-ℤ◌ milliseconds
browse_sliding_example =
    browse_sliding store list_laws key two_a_minute later (stamped (pos 99000 ∷ [])) refl (tt, tt)
      (inl (omega arith, tt))

browse_stale_example :
    (Leak.browse store later key two_a_minute (stamped (pos 99000 ∷ pos 1 ∷ []))).0
    ≢ leb_ℤ
        (pos 2)
        (pos (in_window (Leak.window_start later two_a_minute) (pos 99000 ∷ pos 1 ∷ [])))
unfolding items lookup local_list_laws text_eq Leak.window_start unix_milli wrap64 ◌-ℤ◌ milliseconds
browse_stale_example =
    browse_stale store list_laws key two_a_minute later (stamped (pos 99000 ∷ pos 1 ∷ []))
      (pos 99000) (pos 1 ∷ []) refl refl ((omega arith, tt), (tt, tt)) (omega arith) (omega arith)
      (omega arith)
