-- ===== src/Storage/Local/Lists.antt =====
-- The list operations of LocalStorage: LPush, LLen, LIndex, LTrim, LRange.
pub mod Window
pub mod Reads
pub mod Index
use koala_v.Prelude.{
  ℤ, pos, ◌+ℤ◌, ◌-ℤ◌, pos_part, ltb_ℤ, leb_ℤ, ℕ, suc, ◌-◌, Text, lookup, insert, length, take, drop,
  get_elem?, List, [], ◌++◌, reverse, Option, none, some, ◌||◌, ◌==◌, if◌then◌else◌,
}
use koala_v.Storage.{Call, Action, index_out_of_range, storage_closed}
use koala_v.Storage.Local.{LocalStorage, ListEntry}

-- A negative index counts from the end.
unfoldable pub from_end : ℕ → ℤ → ℤ
from_end len i = if ltb_ℤ i (pos 0) then pos len +ℤ i else i

-- The start and stop that LTrim and LRange use.
unfoldable pub clamp_start : ℕ → ℤ → ℤ
unfolding from_end
clamp_start len start = let a = from_end len start in if ltb_ℤ a (pos 0) then pos 0 else a

unfoldable pub clamp_stop : ℕ → ℤ → ℤ
unfolding from_end
clamp_stop len stop = let b = from_end len stop in if leb_ℤ (pos len) b then pos len -ℤ pos 1 else b

-- `data[start : stop+1]`, or nothing where the range is empty.
unfoldable pub slice : ℤ → ℤ → List ℤ → List ℤ
unfolding clamp_start clamp_stop
slice start stop xs =
    let len = length xs in
    let a = clamp_start len start in
    let b = clamp_stop len stop in
    if ltb_ℤ b a || leb_ℤ (pos len) a
    then []
    else take (suc (pos_part b) - pos_part a) (drop (pos_part a) xs)

module _ {C : Type 0} where
  -- `values` is the variadic argument.
  unfoldable pub l_push : Text → List ℤ → Action (LocalStorage C)
  l_push key values s =
      if s.closed
      then (some storage_closed, s)
      else (let entry : ListEntry = elim (lookup key s.lists) [
        | none ↦ record { items = []; expires = none }
        | some e ↦ e
      ] in
          (
            none,
            record s {
              lists = insert key (record entry { items = reverse values ++ entry.items }) s.lists;
            },
          ))

  unfoldable pub l_len : Text → Call (LocalStorage C) ℤ
  l_len key s = if s.closed then (pos 0, some storage_closed, s) else elim (lookup key s.lists) [
    | none ↦ (pos 0, none, s)
    | some e ↦ (pos (length e.items), none, s)
  ]

  unfoldable pub l_index : Text → ℤ → Call (LocalStorage C) ℤ
  l_index key index s =
      if s.closed then (pos 0, some storage_closed, s) else elim (lookup key s.lists) [
        | none ↦ (pos 0, some index_out_of_range, s)
        | some e ↦
            let len = length e.items in
            let i = from_end len index in
            if len == 0
            then (pos 0, some index_out_of_range, s)
            else if ltb_ℤ i (pos 0) || leb_ℤ (pos len) i
            then (pos 0, some index_out_of_range, s)
            else elim (get_elem? e.items (pos_part i)) [
              | none ↦ (pos 0, some index_out_of_range, s)
              | some v ↦ (v, none, s)
            ]
      ]

  unfoldable pub l_trim : Text → ℤ → ℤ → Action (LocalStorage C)
  l_trim key start stop s =
      if s.closed then (some storage_closed, s) else elim (lookup key s.lists) [
        | none ↦ (none, s)
        | some e ↦ if length e.items == 0 then (none, s) else (
          none,
          record s { lists = insert key (record e { items = slice start stop e.items }) s.lists },
        )
      ]

  unfoldable pub l_range : Text → ℤ → ℤ → Call (LocalStorage C) (List ℤ)
  l_range key start stop s =
      if s.closed then ([], some storage_closed, s) else elim (lookup key s.lists) [
        | none ↦ ([], none, s)
        | some e ↦
            if length e.items == 0 then ([], none, s) else (slice start stop e.items, none, s)
      ]
