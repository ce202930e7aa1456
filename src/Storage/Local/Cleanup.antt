-- ===== src/Storage/Local/Cleanup.antt =====
-- cleanupLists: the keys of empty or expired lists are collected, and tested again when deleted.
pub mod Kept
use koala_v.Prelude.{
  ℤ, Text, Table, lookup, delete, length, List, [], ◌∷◌, Bool, none, some, ◌||◌, ◌==◌,
  if◌then◌else◌,
}
use koala_v.Storage.Laws.{is_expired}
use koala_v.Storage.Local.{LocalStorage, ListEntry}

unfoldable pub is_stale : ℤ → ListEntry → Bool
is_stale now e = length e.items == 0 || is_expired now e.expires

-- The first pass, over the map.
unfoldable pub stale_keys : ℤ → Table ListEntry → List Text
unfolding is_stale
stale_keys now [] = []
stale_keys now ((key, e) ∷ m) =
    let rest = stale_keys now m in if is_stale now e then key ∷ rest else rest

-- One round of the second pass.
unfoldable pub delete_stale : ℤ → Text → Table ListEntry → Table ListEntry
unfolding is_stale
delete_stale now key m = elim (lookup key m) [
  | none ↦ m
  | some e ↦ if is_stale now e then delete key m else m
]

unfoldable pub delete_all : ℤ → List Text → Table ListEntry → Table ListEntry
unfolding delete_stale
delete_all now [] m = m
delete_all now (key ∷ keys) m = delete_all now keys (delete_stale now key m)

module _ {C : Type 0} where
  unfoldable pub cleanup_lists : ℤ → LocalStorage C → LocalStorage C
  unfolding stale_keys delete_all
  cleanup_lists now s = record s { lists = delete_all now (stale_keys now s.lists) s.lists }
