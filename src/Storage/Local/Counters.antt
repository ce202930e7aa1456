-- ===== src/Storage/Local/Counters.antt =====
-- The counter operations of LocalStorage: GetInt, SetInt, Incr, IncrBy, IncrWithTTL.
pub mod Live
pub mod Frame
use koala_v.Prelude.{
  ℤ, pos, ◌+ℤ◌, wrap64, Text, Table, lookup, insert, delete, Option, none, some, if◌then◌else◌,
}
use koala_v.Storage.{Call, Action, key_not_found, storage_closed}
use koala_v.Storage.Laws.{CounterEntry, is_expired, deadline}
use koala_v.Storage.Local.{LocalStorage}

module _ {C : Type 0} where
  unfoldable pub get_int : ℤ → Text → Call (LocalStorage C) ℤ
  get_int now key s =
      if s.closed then (pos 0, some storage_closed, s) else elim (lookup key s.counters) [
        | none ↦ (pos 0, some key_not_found, s)
        | some e ↦
            if is_expired now e.expires
            then (pos 0, some key_not_found, record s { counters = delete key s.counters })
            else (e.value, none, s)
      ]

  unfoldable pub set_int : ℤ → Text → ℤ → ℤ → Action (LocalStorage C)
  set_int now key value ttl s = if s.closed then (some storage_closed, s) else (
    none,
    record s {
      counters = insert key (record { value = value; expires = deadline now ttl }) s.counters;
    },
  )

-- The part under the lock of IncrBy and IncrWithTTL: the entry that is counted on, and the map
-- with that entry in it. An expired entry is deleted and replaced by the fresh one.
unfoldable pub claim_entry :
    ℤ → Text → CounterEntry → Table CounterEntry → CounterEntry × Table CounterEntry
claim_entry now key fresh m = elim (lookup key m) [
  | none ↦ (fresh, insert key fresh m)
  | some e ↦ if is_expired now e.expires then (fresh, insert key fresh (delete key m)) else (e, m)
]

-- `entry.value.Add(delta)` on the claimed entry, which the map shares.
unfoldable pub add_to : Text → ℤ → CounterEntry × Table CounterEntry → ℤ × Table CounterEntry
add_to key delta (e, m) =
    let v = wrap64 (e.value +ℤ delta) in (v, insert key (record e { value = v }) m)

module _ {C : Type 0} where
  unfoldable pub incr_by : ℤ → Text → ℤ → Call (LocalStorage C) ℤ
  incr_by now key delta s =
      if s.closed
      then (pos 0, some storage_closed, s)
      else (let fresh : CounterEntry = record { value = pos 0; expires = none } in
          let (v, m) = add_to key delta (claim_entry now key fresh s.counters) in
          (v, none, record s { counters = m }))

  unfoldable pub incr : ℤ → Text → Call (LocalStorage C) ℤ
  unfolding incr_by
  incr now key = incr_by now key (pos 1)

  unfoldable pub incr_with_ttl : ℤ → Text → ℤ → Call (LocalStorage C) ℤ
  incr_with_ttl now key ttl s =
      if s.closed
      then (pos 0, some storage_closed, s)
      else (let fresh : CounterEntry = record { value = pos 0; expires = deadline now ttl } in
          let (v, m) = add_to key (pos 1) (claim_entry now key fresh s.counters) in
          (v, none, record s { counters = m }))
