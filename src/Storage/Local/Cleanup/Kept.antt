-- ===== src/Storage/Local/Cleanup/Kept.antt =====
-- The cleanup of lists against what a call can read of them.
use koala_v.Prelude.{
  ℤ, Text, text_eq_iff, Table, lookup, lookup-delete, List, [], ◌∷◌, none, some, Option-cases, inl,
  inr, ◌≡◌, refl, ap, ◌∙◌, arith,
}
use koala_v.Storage.Local.{LocalStorage, ListEntry}
use koala_v.Storage.Local.Cleanup.{is_stale, stale_keys, delete_stale, delete_all, cleanup_lists}
use koala_v.Storage.Local.Lists.Reads.{items, items_of}

-- No list has a time to live: no operation of the storage gives it one.
abbrev NeverExpires : Table ListEntry → Type 0
NeverExpires m = (key : Text) (e : ListEntry) → lookup key m ≡ some e → e.expires ≡ none

lookup_cong : (i j : Text) (m : Table ListEntry) → i ≡ j → lookup i m ≡ lookup j m
lookup_cong i j m e = ap (λ (k : Text). lookup k m) e

lookup-delete_stale :
    (now : ℤ) (key j : Text) (m : Table ListEntry)
    → NeverExpires m
    → items_of (lookup j (delete_stale now key m)) ≡ items_of (lookup j m)
unfolding delete_stale is_stale
lookup-delete_stale now key j m h = elim (Option-cases (lookup key m)) [
  | inl n ↦ ground (arith, n)
  | inr (e, f) ↦
      ground (arith, f, h key e f, lookup-delete key j m, text_eq_iff key j, lookup_cong key j m)
]

delete_stale-NeverExpires :
    (now : ℤ) (key : Text) (m : Table ListEntry)
    → NeverExpires m
    → NeverExpires (delete_stale now key m)
unfolding delete_stale
delete_stale-NeverExpires now key m h =
    λ j e found. ground (arith, found, h j e, lookup-delete key j m)

delete_all-items :
    (now : ℤ) (keys : List Text) (j : Text) (m : Table ListEntry)
    → NeverExpires m
    → items_of (lookup j (delete_all now keys m)) ≡ items_of (lookup j m)
unfolding delete_all
delete_all-items now [] j m h = refl
delete_all-items now (key ∷ keys) j m h =
    delete_all-items now keys j (delete_stale now key m) (delete_stale-NeverExpires now key m h)
    ∙ lookup-delete_stale now key j m h

module _ {C : Type 0} where
  -- While no list has a time to live, cleanupLists leaves the elements of every key's list as they
  -- are: it removes empty lists alone, which read like missing ones.
  items-cleanup_lists :
      (now : ℤ) (key : Text) (s : LocalStorage C)
      → NeverExpires s.lists
      → items key (cleanup_lists now s) ≡ items key s
  unfolding items cleanup_lists
  items-cleanup_lists now key s h = delete_all-items now (stale_keys now s.lists) key s.lists h
