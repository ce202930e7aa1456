-- ===== src/Storage/Local/Counters/Live.antt =====
-- The live counters of LocalStorage, and the laws that the algorithms use.
use koala_v.Prelude.{
  ℤ, pos, ◌≤ℤ◌, Text, lookup, text_eq, text_eq_iff, lookup-delete, false, Option, ◌≡◌, arith,
  if◌then◌else◌, some,
}
use koala_v.Storage.Laws.{CounterEntry, CounterLaws, deadline, still, after_incr}
use koala_v.Storage.Local.{LocalStorage, Ristretto}
use koala_v.Storage.Local.Counters.Frame.{lookup-add_to, value-add_to}
use koala_v.Storage.Local.Counters.{get_int, incr_with_ttl}
use koala_v.Storage.Local.Instance.{local_storage}

module _ {C : Type 0} where
  abbrev pub IsOpen : LocalStorage C → Type 0
  IsOpen s = s.closed ≡ false

  -- The entry of a key, unless it has expired.
  unfoldable pub live : ℤ → Text → LocalStorage C → Option CounterEntry
  live now key s = still now (lookup key s.counters)

-- The entry that IncrWithTTL makes for a key that has none.
abbrev fresh : ℤ → ℤ → CounterEntry
fresh now ttl = record { value = pos 0; expires = deadline now ttl }

pub still-still :
    (now later : ℤ) (o : Option CounterEntry)
    → now ≤ℤ later
    → still later o ≡ still later (still now o)
still-still now later o h = ground arith

module _ {C : Type 0} (now later : ℤ) (key j : Text) (s : LocalStorage C) where
  -- In an open storage GetInt deletes at most a counter that has expired: at every later instant
  -- each key has the live counter that it would have had without the call.
  pub live-get_int : now ≤ℤ later → IsOpen s → live later j (get_int now key s).2 ≡ live later j s
  unfolding get_int live
  live-get_int h o = ground (arith, lookup-delete key j s.counters, text_eq_iff key j)

  -- In an open storage, after IncrWithTTL the key has, at every instant, the counter raised by one,
  -- with the deadline that it had, or a new one if it had no live counter, until that deadline;
  -- every other key is as before.
  pub live-incr_with_ttl :
      (ttl : ℤ)
      → IsOpen s
      → live later j (incr_with_ttl now key ttl s).2 ≡ (
          if text_eq key j
          then still later (some (after_incr now ttl (live now key s)))
          else live later j s)
  unfolding incr_with_ttl live
  live-incr_with_ttl ttl o =
      ground (arith, lookup-add_to now key (fresh now ttl) s.counters (pos 1) j, text_eq_iff key j)

module _ {C : Type 0} (now : ℤ) (key : Text) (ttl : ℤ) (s : LocalStorage C) where
  pub incr_with_ttl-value :
      IsOpen s → (incr_with_ttl now key ttl s).0 ≡ (after_incr now ttl (live now key s)).value
  unfolding incr_with_ttl live
  incr_with_ttl-value o = ground (arith, value-add_to now key (fresh now ttl) s.counters (pos 1))

-- The laws of the counters hold of LocalStorage while it is not closed.
unfoldable pub local_counter_laws :
    {C : Type 0} (cache : Ristretto C) → CounterLaws (local_storage cache)
unfolding get_int incr_with_ttl live
local_counter_laws cache = record {
  IsOpen = IsOpen;
  live = live;
  live-still = λ now later key s h. still-still now later (lookup key s.counters) h;
  get_int-value = λ now key s o. ground arith;
  get_int-error = λ now key s o. ground arith;
  get_int-IsOpen = λ now key s o. ground arith;
  live-get_int = λ now later key j s h o. live-get_int now later key j s h o;
  incr_with_ttl-value = λ now key ttl s o. incr_with_ttl-value now key ttl s o;
  incr_with_ttl-error = λ now key ttl s o. ground arith;
  incr_with_ttl-IsOpen = λ now key ttl s o. ground arith;
  live-incr_with_ttl = λ now later key j ttl s h o. live-incr_with_ttl now later key j s ttl o;
}
