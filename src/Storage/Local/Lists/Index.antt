-- ===== src/Storage/Local/Lists/Index.antt =====
-- LIndex against LRange.
use koala_v.Prelude.{
  ℕ, zero, suc, ◌-◌, ℤ, pos, negsuc, ltb_ℤ, leb_ℤ, pos_part, Text, lookup, length, take, drop,
  get_elem?, List, [], ◌∷◌, Option, none, some, ◌≡◌, arith, if◌then◌else◌, ◌||◌, ◌==◌, Option-cases,
  inl, inr,
}
use koala_v.Storage.{Error, index_out_of_range}
use koala_v.Storage.Laws.{window, between, resolve}
use koala_v.Storage.Local.{LocalStorage}
use koala_v.Storage.Local.Lists.{from_end, l_index, l_range}
use koala_v.Storage.Between.{between_above, between_nil, between-slice}
use koala_v.Storage.Local.Lists.Reads.{IsOpen, items, l_range-value}

-- The first element, or the error of an index out of range.
abbrev element_of : List ℤ → ℤ × Option Error
element_of [] = (pos 0, some index_out_of_range)
element_of (x ∷ xs) = (x, none)

abbrev element_at : ℤ → List ℤ → ℤ × Option Error
element_at i xs =
    if ltb_ℤ i (pos 0) || leb_ℤ (pos (length xs)) i
    then (pos 0, some index_out_of_range)
    else elim (get_elem? xs (pos_part i)) [
      | none ↦ (pos 0, some index_out_of_range)
      | some v ↦ (v, none)
    ]

-- The element at a position, as the first of what is left there.
element-drop :
    (k : ℕ) (xs : List ℤ) → element_at (pos k) xs ≡ element_of (take (suc k - k) (drop k xs))
element-drop zero [] = ground arith
element-drop zero (x ∷ xs) = ground arith
element-drop (suc k) [] = ground arith
element-drop (suc k) (x ∷ xs) = ground (arith, element-drop k xs)

element-window : (i : ℤ) (xs : List ℤ) → element_at i xs ≡ element_of (between 0 i i xs)
element-window (pos k) xs = rw between-slice (element-drop k xs)
element-window (negsuc k) xs = ground (arith, between_above 0 (negsuc k) (negsuc k) xs)

element-resolved :
    (i : ℤ) (xs : List ℤ)
    → (if length xs == 0
        then (pos 0, some index_out_of_range)
        else element_at (resolve (length xs) i) xs)
      ≡ element_of (window i i xs)
unfolding window
element-resolved i [] = rw between_nil
element-resolved i (x ∷ xs) = ground (arith, element-window (resolve (length (x ∷ xs)) i) (x ∷ xs))

-- In an open storage LIndex returns the one element of LRange with both bounds at the index, and
-- the error ErrIndexOutOfRange exactly where that range is empty; for negative indices and missing
-- keys too.
l_index-l_range :
    {C : Type 0} (key : Text) (i : ℤ) (s : LocalStorage C)
    → IsOpen s
    → ((l_index key i s).0 ≡ (element_of (l_range key i i s).0).0)
      × ((l_index key i s).1 ≡ (element_of (l_range key i i s).0).1)
      × ((l_index key i s).2 ≡ s)
unfolding l_index from_end items
l_index-l_range key i s o = elim (Option-cases (lookup key s.lists)) [
  | inl miss ↦ ground (arith, l_range-value key s o i i, element-resolved i [])
  | inr (e, hit) ↦ ground (arith, l_range-value key s o i i, element-resolved i e.items)
]
