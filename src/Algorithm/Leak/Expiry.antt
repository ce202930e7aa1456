-- ===== src/Algorithm/Leak/Expiry.antt =====
-- What Leak does with timestamps that have left the window.
use koala_v.Prelude.{
  ℕ, suc, ℤ, pos, negsuc, ◌≤ℤ◌, ◌<ℤ◌, leb_ℤ, Text, length, List, [], ◌∷◌, All, Bool-cases, inl, inr,
  Option, some, none, ◌≡◌, refl, ap, ◌∙◌, arith, if◌then◌else◌, text_eq_refl, unix_milli,
}
use koala_v.Storage.{Error, Storage}
use koala_v.Storage.Laws.{ListLaws}
use koala_v.Storage.Between.{window_all, window_clear}
use koala_v.Algorithm.Limit.{LimitConfig}
use koala_v.Algorithm.Leak.{first_valid, window_start, trim_expired, clean_expired, browse, update}

-- Newest first.
abbrev pub Descending : List ℤ → Type 0
Descending [] = Unit
Descending (x ∷ xs) = All (λ y. y ≤ℤ x) xs × Descending xs

-- How many timestamps are in the window.
abbrev pub in_window : ℤ → List ℤ → ℕ
in_window w [] = 0
in_window w (ts ∷ xs) = let n = in_window w xs in if leb_ℤ w ts then suc n else n

first_valid-none : (w : ℤ) (xs : List ℤ) → All (λ y. y <ℤ w) xs → first_valid w xs ≡ none
unfolding first_valid
first_valid-none w [] h = refl
first_valid-none w (x ∷ xs) (h, hs) = ground (arith, first_valid-none w xs hs)

-- A list as it is while its first timestamp is in the window, and nothing of it otherwise.
abbrev pub cleaned : ℤ → List ℤ → List ℤ
cleaned w [] = []
cleaned w (x ∷ xs) = if leb_ℤ w x then x ∷ xs else []

All-older : (w x : ℤ) (xs : List ℤ) → All (λ y. y ≤ℤ x) xs → x <ℤ w → All (λ y. y <ℤ w) xs
All-older w x [] h k = tt
All-older w x (y ∷ ys) (h, hs) k = (omega arith, All-older w x ys hs k)

first_valid_cases :
    (w x : ℤ) (xs : List ℤ)
    → Descending (x ∷ xs)
    → first_valid w (x ∷ xs) ≡ (if leb_ℤ w x then some 0 else none)
unfolding first_valid
first_valid_cases w x xs (h, d) = ground (arith, All-older w x xs h, first_valid-none w xs)

module _ {S : Type 0} (store : Storage S) (laws : ListLaws store) (key : Text)
    (limit : LimitConfig) where
  open laws use {IsOpen, items}

  -- The call that cleanExpired comes to.
  abbrev cleaning : ℤ → List ℤ → S → Option Error × S
  cleaning now [] s = (none, s)
  cleaning now (x ∷ xs) s =
      if leb_ℤ (window_start now limit) x then (none, s) else store.l_trim now key (pos 1) (pos 0) s

  clean_expired-cleaning :
      (now : ℤ) (s : S) (xs : List ℤ)
      → IsOpen s
      → items key s ≡ xs
      → Descending xs
      → clean_expired store now key limit s ≡ cleaning now xs s
  unfolding clean_expired trim_expired
  clean_expired-cleaning now s [] op e d = ground (
    arith,
    laws.l_range-value now key (pos 0) (negsuc 0) s op,
    laws.l_range-error now key (pos 0) (negsuc 0) s op,
    laws.l_range-state now key (pos 0) (negsuc 0) s op,
    window_all (items key s),
  )
  clean_expired-cleaning now s (x ∷ xs) op e d = ground (
    arith,
    laws.l_range-value now key (pos 0) (negsuc 0) s op,
    laws.l_range-error now key (pos 0) (negsuc 0) s op,
    laws.l_range-state now key (pos 0) (negsuc 0) s op,
    window_all (items key s),
    first_valid_cases (window_start now limit) x xs d,
  )

  cleaning-items :
      (now : ℤ) (s : S) (xs : List ℤ)
      → IsOpen s
      → items key s ≡ xs
      → ((cleaning now xs s).0 ≡ none)
        × IsOpen (cleaning now xs s).1
        × (items key (cleaning now xs s).1 ≡ cleaned (window_start now limit) xs)
  cleaning-items now s [] op e = (refl, op, e)
  cleaning-items now s (x ∷ xs) op e = elim (Bool-cases (leb_ℤ (window_start now limit) x)) [
    | inl fresh ↦ rw fresh (refl, op, e)
    | inr stale ↦ rw stale (
      laws.l_trim-error now key (pos 1) (pos 0) s op,
      laws.l_trim-IsOpen now key (pos 1) (pos 0) s op,
      (rw (text_eq_refl key, window_clear) at (laws.items-l_trim now key key (pos 1) (pos 0) s op)),
    )
  ]

  -- cleanExpired returns no error, and leaves the list cleaned.
  clean_expired-items :
      (now : ℤ) (s : S)
      → IsOpen s
      → Descending (items key s)
      → ((clean_expired store now key limit s).0 ≡ none)
        × IsOpen (clean_expired store now key limit s).1
        × (items key (clean_expired store now key limit s).1
            ≡ cleaned (window_start now limit) (items key s))
  clean_expired-items now s op d =
      rw (clean_expired-cleaning now s (items key s) op refl d)
        (cleaning-items now s (items key s) op refl)

  -- In an open storage that fulfils the laws of lists, for a list that is newest first: Browse
  -- returns no error, and hits exactly when the number of timestamps has reached the limit, which
  -- is taken as 0 when the newest has left the window, and otherwise counts them all.
  pub browse-cleaned :
      (now : ℤ) (s : S)
      → IsOpen s
      → Descending (items key s)
      → ((browse store now key limit s).0
          ≡ leb_ℤ limit.count (pos (length (cleaned (window_start now limit) (items key s)))))
        × ((browse store now key limit s).1 ≡ none)
  unfolding browse
  browse-cleaned now s op d =
      let (no_error, op', left) = clean_expired-items now s op d in
      let s' = (clean_expired store now key limit s).1 in
      ground (arith, laws.l_len-value now key s' op', laws.l_len-error now key s' op')

  -- In an open storage that fulfils the laws of lists, for a list that is newest first: Update
  -- returns no error, leaves the storage open, and puts the timestamp in front of the list, which
  -- it clears first when its newest timestamp has left the window.
  pub update-cleaned :
      (now : ℤ) (s : S)
      → IsOpen s
      → Descending (items key s)
      → ((update store now key limit s).0 ≡ none)
        × IsOpen (update store now key limit s).1
        × (items key (update store now key limit s).1
            ≡ unix_milli now ∷ cleaned (window_start now limit) (items key s))
  unfolding update
  update-cleaned now s op d =
      let (no_error, op', left) = clean_expired-items now s op d in
      let s' = (clean_expired store now key limit s).1 in
      rw (no_error, update)
        (
          laws.l_push-error now key (unix_milli now ∷ []) s' op',
          laws.l_push-IsOpen now key (unix_milli now ∷ []) s' op',
          (rw (text_eq_refl key) at (laws.items-l_push now key key (unix_milli now ∷ []) s' op'))
              ∙ ap (λ xs. unix_milli now ∷ xs) left,
        )
