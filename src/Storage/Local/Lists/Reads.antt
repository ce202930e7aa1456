-- ===== src/Storage/Local/Lists/Reads.antt =====
-- The lists of LocalStorage, and the laws that the leaky bucket uses.
use koala_v.Prelude.{
  ℤ, Text, lookup, text_eq, text_eq_iff, lookup-insert, length, List, [], ◌∷◌, ◌++◌, reverse, ◌==◌,
  sym, Option-cases, inl, inr, false, Option, none, some, ◌≡◌, refl, arith, if◌then◌else◌,
}
use koala_v.Storage.Laws.{ListLaws, window, between}
use koala_v.Storage.Local.{LocalStorage, ListEntry, Ristretto}
use koala_v.Storage.Local.Lists.{slice, l_push, l_len, l_trim, l_range}
use koala_v.Storage.Local.Lists.Window.{slice-window}
use koala_v.Storage.Local.Instance.{local_storage}

abbrev pub items_of : Option ListEntry → List ℤ
items_of none = []
items_of (some e) = e.items

module _ {C : Type 0} where
  abbrev pub IsOpen : LocalStorage C → Type 0
  IsOpen s = s.closed ≡ false

  -- The elements of a key's list, newest first.
  unfoldable pub items : Text → LocalStorage C → List ℤ
  items key s = items_of (lookup key s.lists)

window_nil : (start stop : ℤ) → window {A = ℤ} start stop [] ≡ []
unfolding window between
window_nil start stop = refl

-- The test for an empty list changes nothing.
guarded :
    (start stop : ℤ) (xs : List ℤ)
    → (if length xs == 0 then [] else slice start stop xs) ≡ window start stop xs
guarded start stop [] = sym (window_nil start stop)
guarded start stop (x ∷ xs) = rw slice-window (ground arith)

module _ {C : Type 0} (key : Text) (s : LocalStorage C) (o : IsOpen s) where
  pub l_range-value :
      (start stop : ℤ) → (l_range key start stop s).0 ≡ window start stop (items key s)
  unfolding l_range items
  l_range-value start stop = elim (Option-cases (lookup key s.lists)) [
    | inl miss ↦ ground (arith, window_nil start stop)
    | inr (e, hit) ↦ ground (arith, guarded start stop e.items)
  ]

  pub items-l_trim :
      (j : Text) (start stop : ℤ)
      → items j (l_trim key start stop s).1
        ≡ (if text_eq key j then window start stop (items key s) else items j s)
  unfolding l_trim items
  items-l_trim j start stop = elim (Option-cases (lookup key s.lists)) [
    | inl miss ↦ ground (arith, window_nil start stop, text_eq_iff key j)
    | inr (e, hit) ↦ ground (
      arith,
      guarded start stop e.items,
      text_eq_iff key j,
      lookup-insert key j (record e { items = slice start stop e.items }) s.lists,
    )
  ]

  pub items-l_push :
      (j : Text) (values : List ℤ)
      → items j (l_push key values s).1
        ≡ (if text_eq key j then reverse values ++ items key s else items j s)
  unfolding l_push items
  items-l_push j values = elim (Option-cases (lookup key s.lists)) [
    | inl miss ↦ ground (
      arith,
      lookup-insert key j (record { items = reverse values ++ []; expires = none }) s.lists,
    )
    | inr (e, hit) ↦
        ground (arith, lookup-insert key j (record e { items = reverse values ++ e.items }) s.lists)
  ]

-- The laws of the lists hold of LocalStorage while it is not closed.
unfoldable pub local_list_laws : {C : Type 0} (cache : Ristretto C) → ListLaws (local_storage cache)
unfolding l_range l_len l_trim l_push items
local_list_laws cache = record {
  IsOpen = IsOpen;
  items = items;
  l_range-value = λ now key start stop s o. l_range-value key s o start stop;
  l_range-error = λ now key start stop s o. ground arith;
  l_range-state = λ now key start stop s o. ground arith;
  l_len-value = λ now key s o. ground arith;
  l_len-error = λ now key s o. ground arith;
  l_len-state = λ now key s o. ground arith;
  l_trim-error = λ now key start stop s o. ground arith;
  l_trim-IsOpen = λ now key start stop s o. ground arith;
  items-l_trim = λ now key j start stop s o. items-l_trim key s o j start stop;
  l_push-error = λ now key values s o. ground arith;
  l_push-IsOpen = λ now key values s o. ground arith;
  items-l_push = λ now key j values s o. items-l_push key s o j values;
}
