-- ===== src/Storage/Local/Lists/Window.antt =====
-- The index arithmetic of LTrim and LRange against the positions between two bounds.
use koala_v.Prelude.{
  ℕ, suc, ◌-◌, ℤ, pos, negsuc, ◌-ℤ◌, pos_part, leb, ltb_ℤ, leb_ℤ, length, take, drop, List, [], ◌∷◌,
  ◌≡◌, ◌||◌, arith, if◌then◌else◌,
}
use koala_v.Storage.Laws.{resolve, between, window}
use koala_v.Storage.Between.{
  between_above, between_upper, between_lower, between_nil, between-slice, drop_of_length-le,
  take_zero, take_nil,
}
use koala_v.Storage.Local.Lists.{from_end, clamp_start, clamp_stop, slice}

-- The result of LTrim and LRange for a resolved start and stop.
abbrev cut : ℤ → ℤ → List ℤ → List ℤ
cut a b xs =
    if ltb_ℤ b a || leb_ℤ (pos (length xs)) a
    then []
    else take (suc (pos_part b) - pos_part a) (drop (pos_part a) xs)

cut-between : (a b : ℕ) (xs : List ℤ) → cut (pos a) (pos b) xs ≡ between 0 (pos a) (pos b) xs
cut-between a b xs = rw between-slice (
    ground (arith, drop_of_length-le a xs, take_nil (suc b - a), take_zero (suc b - a) (drop a xs)))

-- The upper bound of a list that is not empty.
cut-clamped_stop :
    (a m : ℕ) (x : ℤ) (xs : List ℤ)
    → cut (pos a) (if leb (suc (length xs)) m then pos (length xs) else pos m) (x ∷ xs)
      ≡ between 0 (pos a) (pos m) (x ∷ xs)
cut-clamped_stop a m x xs = ground (
  arith,
  cut-between a (length xs) (x ∷ xs),
  cut-between a m (x ∷ xs),
  between_upper 0 (pos a) (pos m) (pos (length xs)) (x ∷ xs),
)

stop_of_cons : (n : ℕ) → pos (suc n) -ℤ pos 1 ≡ pos n
unfolding ◌-ℤ◌
stop_of_cons n = ground arith

clamped :
    (a b : ℤ) (xs : List ℤ)
    → cut
        (if ltb_ℤ a (pos 0) then pos 0 else a)
        (if leb_ℤ (pos (length xs)) b then pos (length xs) -ℤ pos 1 else b)
        xs
      ≡ between 0 a b xs
clamped (pos n) (negsuc m) xs = ground (arith, between_above 0 (pos n) (negsuc m) xs)
clamped (negsuc n) (negsuc m) xs = ground (arith, between_above 0 (negsuc n) (negsuc m) xs)
clamped (pos n) (pos m) [] = ground (arith, between_nil 0 (pos n) (pos m))
clamped (negsuc n) (pos m) [] = ground (arith, between_nil 0 (negsuc n) (pos m))
clamped (pos n) (pos m) (x ∷ xs) = rw stop_of_cons (ground (arith, cut-clamped_stop n m x xs))
clamped (negsuc n) (pos m) (x ∷ xs) =
    rw stop_of_cons (
      ground
        (arith, cut-clamped_stop 0 m x xs, between_lower 0 (negsuc n) (pos 0) (pos m) (x ∷ xs)))

-- For every list and all bounds, the slice that LTrim keeps and LRange returns is the window
-- of Redis: the positions between the two resolved bounds.
pub slice-window : (start stop : ℤ) (xs : List ℤ) → slice start stop xs ≡ window start stop xs
unfolding slice window from_end clamp_start clamp_stop
slice-window start stop xs = clamped (resolve (length xs) start) (resolve (length xs) stop) xs
