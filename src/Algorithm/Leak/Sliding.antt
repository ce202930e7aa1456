-- ===== src/Algorithm/Leak/Sliding.antt =====
-- Leak against a sliding window: the number of timestamps that are in the window.
use koala_v.Prelude.{
  ℕ, suc, ◌+◌, ℤ, pos, ◌≤ℤ◌, ◌<ℤ◌, leb_ℤ, Text, length, List, [], ◌∷◌, All, ◌≡◌, ◌≢◌, ◌⊎◌, inl, inr,
  refl, ap, arith, unix_milli,
}
use koala_v.Storage.{Storage}
use koala_v.Storage.Laws.{ListLaws}
use koala_v.Algorithm.Limit.{LimitConfig}
use koala_v.Algorithm.Leak.{window_start, browse, update}
use koala_v.Algorithm.Leak.Expiry.{Descending, in_window, cleaned, browse-cleaned, update-cleaned}

in_window-All : (w : ℤ) (xs : List ℤ) → All (λ y. w ≤ℤ y) xs → in_window w xs ≡ length xs
in_window-All w [] h = refl
in_window-All w (x ∷ xs) (h, hs) = ground (arith, in_window-All w xs hs)

in_window_none : (w : ℤ) (xs : List ℤ) → All (λ y. y <ℤ w) xs → in_window w xs ≡ 0
in_window_none w [] h = refl
in_window_none w (x ∷ xs) (h, hs) = ground (arith, in_window_none w xs hs)

cleaned-All : (w : ℤ) (xs : List ℤ) → All (λ y. w ≤ℤ y) xs → cleaned w xs ≡ xs
cleaned-All w [] h = refl
cleaned-All w (x ∷ xs) (h, hs) = ground arith

cleaned_none : (w : ℤ) (xs : List ℤ) → All (λ y. y <ℤ w) xs → cleaned w xs ≡ []
cleaned_none w [] h = refl
cleaned_none w (x ∷ xs) (h, hs) = ground arith

if_fresh : (w x : ℤ) (xs : List ℤ) → w ≤ℤ x → cleaned w (x ∷ xs) ≡ x ∷ xs
if_fresh w x xs h = ground arith

module _ {S : Type 0} (store : Storage S) (laws : ListLaws store) (key : Text) (limit : LimitConfig)
    (now : ℤ) (s : S) where
  open laws use {IsOpen, items}

  -- In an open storage that fulfils the laws of lists: while the timestamps of a list that is
  -- newest first are all in the window, or have all left it, Browse hits exactly when the number of
  -- timestamps in the window has reached the limit.
  pub browse_sliding :
      IsOpen s
      → Descending (items key s)
      → All (λ y. window_start now limit ≤ℤ y) (items key s)
        ⊎ All (λ y. y <ℤ window_start now limit) (items key s)
      → (browse store now key limit s).0
        ≡ leb_ℤ limit.count (pos (in_window (window_start now limit) (items key s)))
  browse_sliding op d (inl every) = rw (
    (browse-cleaned store laws key limit now s op d).0,
    cleaned-All (window_start now limit) (items key s) every,
    in_window-All (window_start now limit) (items key s) every,
  )
  browse_sliding op d (inr no_one) = rw (
    (browse-cleaned store laws key limit now s op d).0,
    cleaned_none (window_start now limit) (items key s) no_one,
    in_window_none (window_start now limit) (items key s) no_one,
  )

  -- In an open storage that fulfils the laws of lists: a list that is newest first, whose newest
  -- timestamp is in the window, while fewer timestamps than the limit are in the window, but no
  -- fewer with the expired ones counted: what Browse returns is not what the number of timestamps
  -- in the window says.
  pub browse_stale :
      (x : ℤ) (xs : List ℤ)
      → IsOpen s
      → items key s ≡ x ∷ xs
      → Descending (x ∷ xs)
      → window_start now limit ≤ℤ x
      → pos (in_window (window_start now limit) (x ∷ xs)) <ℤ limit.count
      → limit.count ≤ℤ pos (length (x ∷ xs))
      → (browse store now key limit s).0
        ≢ leb_ℤ limit.count (pos (in_window (window_start now limit) (items key s)))
  browse_stale x xs op e d fresh few many =
      let (hit, _) = browse-cleaned store laws key limit now s op (rw e d) in ground arith

module _ {S : Type 0} (store : Storage S) (key : Text) (limit : LimitConfig) where
  -- The updates of one key at the given instants.
  abbrev pub run : List ℤ → S → S
  run [] s = s
  run (t ∷ ts) s = run ts (update store t key limit s).1

-- Each instant comes no earlier than the one before it, and finds it in its window.
abbrev Chained : LimitConfig → ℤ → List ℤ → Type 0
Chained limit t [] = Unit
Chained limit t (u ∷ us) =
    (unix_milli t ≤ℤ unix_milli u) × (window_start u limit ≤ℤ unix_milli t) × Chained limit u us

All-trans : (x y : ℤ) (xs : List ℤ) → All (λ z. z ≤ℤ x) xs → x ≤ℤ y → All (λ z. z ≤ℤ y) xs
All-trans x y [] h k = tt
All-trans x y (z ∷ zs) (h, hs) k = (omega arith, All-trans x y zs hs k)

module _ {S : Type 0} (store : Storage S) (laws : ListLaws store) (key : Text)
    (limit : LimitConfig) where
  open laws use {IsOpen, items}

  -- The list of a key whose last update was at t, with n timestamps.
  record Grown (t : ℤ) (n : ℕ) (s : S) : Type 0 where
    is_open : IsOpen s
    rest : List ℤ
    shape : items key s ≡ unix_milli t ∷ rest
    size : suc (length rest) ≡ n
    order : Descending (unix_milli t ∷ rest)

  update-Grown :
      (t u : ℤ) (n : ℕ) (s : S)
      → Grown t n s
      → unix_milli t ≤ℤ unix_milli u
      → window_start u limit ≤ℤ unix_milli t
      → Grown u (suc n) (update store u key limit s).1
  update-Grown t u n s g le near =
      let (_, op', grown) =
        update-cleaned store laws key limit u s g.is_open (rw g.shape g.order) in
      record {
        is_open = op';
        rest = unix_milli t ∷ g.rest;
        shape = rw (g.shape, if_fresh (window_start u limit) (unix_milli t) g.rest near) at grown;
        size = ap suc g.size;
        order = ((le, All-trans _ _ g.rest g.order.0 le), g.order);
      }

  run-Grown :
      (t : ℤ) (ts : List ℤ) (n : ℕ) (s : S)
      → Grown t n s
      → Chained limit t ts
      → length (items key (run store key limit ts s)) ≡ n + length ts
  run-Grown t [] n s g c = omega (arith, ap length g.shape, g.size)
  run-Grown t (u ∷ us) n s g (le, near, c) =
      omega (arith, run-Grown u us (suc n) _ (update-Grown t u n s g le near) c)

  -- In an open storage that fulfils the laws of lists: from an empty list, updates each of which
  -- finds the one before it in its window: no timestamp is ever removed, so the list is as long as
  -- there were updates, however long ago they were.
  length-run :
      (t : ℤ) (ts : List ℤ) (s : S)
      → IsOpen s
      → items key s ≡ []
      → Chained limit t ts
      → length (items key (run store key limit (t ∷ ts) s)) ≡ suc (length ts)
  length-run t ts s op e c =
      let (_, op', first) = update-cleaned store laws key limit t s op (rw e tt) in
      omega (
        arith,
        run-Grown t ts 1 _
            (record {
              is_open = op';
              rest = [];
              shape = rw e at first;
              size = refl;
              order = (tt, tt);
            })
            c,
      )
