-- ===== src/Algorithm/Counter.antt =====
-- One counter of a storage over time: what a sequence of increments leaves of it. The algorithms
-- Count and Base keep such counters.
use koala_v.Prelude.{
  ℕ, suc, ◌<◌, ℤ, pos, ◌+ℤ◌, ◌≤ℤ◌, ◌<ℤ◌, wrap64, two63, Text, text_eq, text_eq_refl, false, Option,
  some, none, ◌≡◌, ap, ◌∙◌, arith,
}
use koala_v.Storage.{Storage}
use koala_v.Storage.Laws.{CounterEntry, CounterLaws, still, after_incr, value_of, missing}

abbrev pub entry_of : ℕ → ℤ → Option CounterEntry
entry_of n dl = some (record { value = pos n; expires = some dl })

still_live : (now : ℤ) (n : ℕ) (dl : ℤ) → now ≤ℤ dl → still now (entry_of n dl) ≡ entry_of n dl
still_live now n dl h = ground arith

-- One more in an entry that is still live.
incr_entry :
    (t ttl : ℤ) (n : ℕ) (dl : ℤ)
    → t ≤ℤ dl
    → suc n < two63
    → some (after_incr t ttl (still t (entry_of n dl))) ≡ entry_of (suc n) dl
unfolding wrap64 ◌+ℤ◌
incr_entry t ttl n dl h k = ground arith

-- The entry that the first increment makes.
first_entry : (t ttl : ℤ) → pos 0 <ℤ ttl → some (after_incr t ttl none) ≡ entry_of 1 (t +ℤ ttl)
unfolding wrap64 ◌+ℤ◌
first_entry t ttl h = ground arith

module _ {S : Type 0} (store : Storage S) (laws : CounterLaws store) where
  open laws use {IsOpen, live}

  -- From an instant on, the key holds this entry, while the entry lives.
  pub record Holds (key : Text) (t : ℤ) (o : Option CounterEntry) (s : S) : Type 0 where
    pub is_open : IsOpen s
    pub at : (later : ℤ) → t ≤ℤ later → live later key s ≡ still later o

module _ {S : Type 0} (store : Storage S) (laws : CounterLaws store) (key : Text) where
  open laws use {IsOpen, live}

  pub Holds-later :
      (t u : ℤ) (o : Option CounterEntry) (s : S)
      → Holds store laws key t o s
      → t ≤ℤ u
      → Holds store laws key u o s
  Holds-later t u o s h le = record {
    is_open = h.is_open;
    at = λ later after. h.at later (omega arith);
  }

  pub Holds-fresh : (t : ℤ) (s : S) → IsOpen s → live t key s ≡ none → Holds store laws key t none s
  Holds-fresh t s op e = record {
    is_open = op;
    at = λ later after. laws.live-still t later key s after ∙ ap (still later) e;
  }

  -- An increment of the key itself.
  incr-Holds :
      (t u ttl : ℤ) (o : Option CounterEntry) (s : S)
      → Holds store laws key t o s
      → t ≤ℤ u
      → Holds store laws key u
          (some (after_incr u ttl (still u o)))
          (store.incr_with_ttl u key ttl s).2
  incr-Holds t u ttl o s h le = record {
    is_open = laws.incr_with_ttl-IsOpen u key ttl s h.is_open;
    at = λ later after.
        (rw (text_eq_refl key) at (laws.live-incr_with_ttl u later key key ttl s after h.is_open))
        ∙ ap (λ x. still later (some (after_incr u ttl x))) (h.at u le);
  }

  -- An increment of another key, and a read of any.
  pub incr_other-Holds :
      (other : Text) (t u ttl : ℤ) (o : Option CounterEntry) (s : S)
      → text_eq other key ≡ false
      → Holds store laws key t o s
      → t ≤ℤ u
      → Holds store laws key u o (store.incr_with_ttl u other ttl s).2
  incr_other-Holds other t u ttl o s ne h le = record {
    is_open = laws.incr_with_ttl-IsOpen u other ttl s h.is_open;
    at = λ later after.
        (rw ne at (laws.live-incr_with_ttl u later other key ttl s after h.is_open))
        ∙ h.at later (omega arith);
  }

  pub get_int-Holds :
      (other : Text) (t u : ℤ) (o : Option CounterEntry) (s : S)
      → Holds store laws key t o s
      → t ≤ℤ u
      → Holds store laws key u o (store.get_int u other s).2
  get_int-Holds other t u o s h le = record {
    is_open = laws.get_int-IsOpen u other s h.is_open;
    at = λ later after.
        laws.live-get_int u later other key s after h.is_open ∙ h.at later (omega arith);
  }

  -- The two steps of a window: the increment that opens it, and one more before it closes.
  pub open-Holds :
      (t u ttl : ℤ) (s : S)
      → Holds store laws key t none s
      → t ≤ℤ u
      → pos 0 <ℤ ttl
      → Holds store laws key u (entry_of 1 (u +ℤ ttl)) (store.incr_with_ttl u key ttl s).2
  open-Holds t u ttl s h le positive =
      rw (first_entry u ttl positive) at (incr-Holds t u ttl none s h le)

  pub more-Holds :
      (t u ttl : ℤ) (n : ℕ) (dl : ℤ) (s : S)
      → Holds store laws key t (entry_of n dl) s
      → t ≤ℤ u
      → u ≤ℤ dl
      → suc n < two63
      → Holds store laws key u (entry_of (suc n) dl) (store.incr_with_ttl u key ttl s).2
  more-Holds t u ttl n dl s h le soon small =
      rw (incr_entry u ttl n dl soon small) at (incr-Holds t u ttl (entry_of n dl) s h le)

  -- The values that these two increments return.
  pub open-value :
      (t u ttl : ℤ) (s : S)
      → Holds store laws key t none s
      → t ≤ℤ u
      → pos 0 <ℤ ttl
      → (store.incr_with_ttl u key ttl s).0 ≡ pos 1
  open-value t u ttl s h le positive =
      laws.incr_with_ttl-value u key ttl s h.is_open
      ∙ ap (λ o. (after_incr u ttl o).value) (h.at u le)
      ∙ ap value_of (first_entry u ttl positive)

  pub more-value :
      (t u ttl : ℤ) (n : ℕ) (dl : ℤ) (s : S)
      → Holds store laws key t (entry_of n dl) s
      → t ≤ℤ u
      → u ≤ℤ dl
      → suc n < two63
      → (store.incr_with_ttl u key ttl s).0 ≡ pos (suc n)
  more-value t u ttl n dl s h le soon small =
      laws.incr_with_ttl-value u key ttl s h.is_open
      ∙ ap (λ o. (after_incr u ttl o).value) (h.at u le)
      ∙ ap value_of (incr_entry u ttl n dl soon small)

  -- What a read returns while the entry lives.
  pub read-Holds :
      (t now : ℤ) (n : ℕ) (dl : ℤ) (s : S)
      → Holds store laws key t (entry_of n dl) s
      → t ≤ℤ now
      → now ≤ℤ dl
      → ((store.get_int now key s).0 ≡ pos n) × ((store.get_int now key s).1 ≡ none)
  read-Holds t now n dl s h le soon = (
    laws.get_int-value now key s h.is_open ∙ ap value_of (h.at now le ∙ still_live now n dl soon),
    laws.get_int-error now key s h.is_open ∙ ap missing (h.at now le ∙ still_live now n dl soon),
  )
