-- ===== src/Storage/Between.antt =====
-- The positions that LRANGE and LTRIM select, as prefixes and suffixes.
use koala_v.Prelude.{
  ℕ, zero, suc, ◌+◌, ◌-◌, ◌≤◌, ℤ, pos, negsuc, ◌+ℤ◌, pos_part, neg_part, ◌≤ℤ◌, ◌<ℤ◌, length, take,
  drop, List, [], ◌∷◌, ◌≡◌, refl, sym, arith,
}
use native.Mathlib.Nat.{add-zero, add-suc, suc-add, zero-add}
use native.Mathlib.Decide.{dec_le}
use koala_v.Storage.Laws.{between, window}

-- Past the upper bound nothing is selected.
pub between_above : (i : ℕ) (lo hi : ℤ) (xs : List ℤ) → hi <ℤ pos i → between i lo hi xs ≡ []
unfolding between
between_above i lo hi [] h = refl
between_above i lo hi (x ∷ xs) h = ground (arith, between_above (suc i) lo hi xs)

-- From the lower bound on, a prefix is selected.
between-take :
    (n i : ℕ) (lo : ℤ) (b : ℕ) (xs : List ℤ)
    → lo ≤ℤ pos i
    → suc b ≡ i + n
    → between i lo (pos b) xs ≡ take n xs
unfolding between
between-take zero i lo b xs h e = between_above i lo (pos b) xs (omega arith)
between-take (suc n) i lo b [] h e = refl
between-take (suc n) i lo b (x ∷ xs) h e = ground (arith, between-take n (suc i) lo b xs)

-- Below the lower bound the elements are dropped.
between-drop :
    (n i : ℕ) (hi : ℤ) (xs : List ℤ)
    → between i (pos (i + n)) hi xs ≡ between (i + n) (pos (i + n)) hi (drop n xs)
unfolding between
between-drop zero i hi xs = rw add-zero
between-drop (suc n) i hi [] = refl
between-drop (suc n) i hi (x ∷ xs) =
    rw (add-suc, ← suc-add) (ground (arith, between-drop n (suc i) hi xs))

-- A lower bound at or before the first position, and an upper bound at or after the last, may be
-- replaced.
pub between_lower :
    (i : ℕ) (lo lo' hi : ℤ) (xs : List ℤ)
    → lo ≤ℤ pos i
    → lo' ≤ℤ pos i
    → between i lo hi xs ≡ between i lo' hi xs
unfolding between
between_lower i lo lo' hi [] h k = refl
between_lower i lo lo' hi (x ∷ xs) h k = ground (arith, between_lower (suc i) lo lo' hi xs)

pub between_upper :
    (i : ℕ) (lo hi hi' : ℤ) (xs : List ℤ)
    → i + length xs + neg_part hi ≤ suc (pos_part hi)
    → i + length xs + neg_part hi' ≤ suc (pos_part hi')
    → between i lo hi xs ≡ between i lo hi' xs
unfolding between
between_upper i lo hi hi' [] h k = refl
between_upper i lo hi hi' (x ∷ xs) h k = ground (arith, between_upper (suc i) lo hi hi' xs)

pub between_nil : (i : ℕ) (lo hi : ℤ) → between {A = ℤ} i lo hi [] ≡ []
unfolding between
between_nil i lo hi = refl

pub drop_of_length-le : (n : ℕ) (xs : List ℤ) → length xs ≤ n → drop n xs ≡ []
drop_of_length-le zero [] h = refl
drop_of_length-le zero (x ∷ xs) h = absurd (omega arith)
drop_of_length-le (suc n) [] h = refl
drop_of_length-le (suc n) (x ∷ xs) h = drop_of_length-le n xs (omega arith)

pub take_zero : (n : ℕ) (xs : List ℤ) → n ≤ 0 → take n xs ≡ []
take_zero zero xs h = refl
take_zero (suc n) xs h = absurd (omega arith)

pub take_nil : (n : ℕ) → take {A = ℤ} n [] ≡ []
take_nil zero = refl
take_nil (suc n) = refl

-- The selection between two bounds in range is a slice.
pub between-slice :
    (a b : ℕ) (xs : List ℤ) → between 0 (pos a) (pos b) xs ≡ take (suc b - a) (drop a xs)
between-slice a b xs = rw (rw zero-add at (between-drop a 0 (pos b) xs)) (elim (dec_le a (suc b)) [
  | yes h ↦ between-take (suc b - a) a (pos a) b (drop a xs) (omega arith) (omega arith)
  | no h ↦
      rw (between_above a (pos a) (pos b) (drop a xs) (omega arith))
        (sym (take_zero (suc b - a) (drop a xs) (omega arith)))
])

between_all :
    (i : ℕ) (lo : ℤ) (n : ℕ) (xs : List ℤ)
    → lo ≤ℤ pos i
    → i + length xs ≤ suc n
    → between i lo (pos n) xs ≡ xs
unfolding between
between_all i lo n [] h k = refl
between_all i lo n (x ∷ xs) h k = ground (arith, between_all (suc i) lo n xs)

-- LRANGE 0 -1 is the whole list.
pub window_all : (xs : List ℤ) → window (pos 0) (negsuc 0) xs ≡ xs
unfolding window between ◌+ℤ◌
window_all [] = refl
window_all (x ∷ xs) = ground (arith, between_all 1 (pos 0) (length xs) xs)

-- LTRIM 1 0 clears the list.
pub window_clear : (xs : List ℤ) → window (pos 1) (pos 0) xs ≡ []
unfolding window between
window_clear [] = refl
window_clear (x ∷ xs) = ground (arith, between_above 1 (pos 1) (pos 0) xs)
