-- ===== src/Storage/Redis/Texts.antt =====
-- Lists of texts under a function, and keys under a prefix.
use koala_v.Prelude.{
  ℕ, suc, ℤ, Text, text_eq, List, [], ◌∷◌, ◌++◌, reverse, map, length, ◌≡◌, refl, sym, ap, ◌∙◌,
  arith,
}
use mathlib.Core.List.{map-append, reverse-cons}
use koala_v.Storage.Laws.{between, window}

pub length-map : {A B : Type 0} (f : A → B) (xs : List A) → length (map f xs) ≡ length xs
length-map f [] = refl
length-map f (x ∷ xs) = ap suc (length-map f xs)

between-map :
    {A B : Type 0} (f : A → B) (i : ℕ) (lo hi : ℤ) (xs : List A)
    → between i lo hi (map f xs) ≡ map f (between i lo hi xs)
unfolding between
between-map f i lo hi [] = refl
between-map f i lo hi (x ∷ xs) = ground (arith, between-map f (suc i) lo hi xs)

pub window-map :
    {A B : Type 0} (f : A → B) (start stop : ℤ) (xs : List A)
    → window start stop (map f xs) ≡ map f (window start stop xs)
unfolding window
window-map f start stop xs = rw (length-map f xs) (between-map f 0 _ _ xs)

pub map-reverse : {A B : Type 0} (f : A → B) (xs : List A) → map f (reverse xs) ≡ reverse (map f xs)
map-reverse f [] = refl
map-reverse f (x ∷ xs) =
    ap (map f) (reverse-cons x xs)
    ∙ map-append f (reverse xs) (x ∷ [])
    ∙ ap (λ l. l ++ f x ∷ []) (map-reverse f xs)
    ∙ sym (reverse-cons (f x) (map f xs))

-- The prefix keeps keys apart.
pub text_eq_prefix : (p k j : Text) → text_eq (p ++ k) (p ++ j) ≡ text_eq k j
unfolding text_eq
text_eq_prefix [] k j = refl
text_eq_prefix (x ∷ p) k j = ground (arith, text_eq_prefix p k j)
