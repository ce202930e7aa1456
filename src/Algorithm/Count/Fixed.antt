-- ===== src/Algorithm/Count/Fixed.antt =====
-- Count against a fixed window.
use koala_v.Prelude.{
  ℕ, suc, ◌+◌, ◌<◌, ℤ, pos, ◌+ℤ◌, ◌≤ℤ◌, ◌<ℤ◌, leb_ℤ, two63, Text, length, List, [], ◌∷◌, All, false,
  none, ◌≡◌, arith, if◌then◌else◌,
}
use native.Mathlib.Nat.{add-zero, add-suc, suc-add}
use koala_v.Storage.{Storage}
use koala_v.Storage.Laws.{CounterLaws, still}
use koala_v.Algorithm.Limit.{LimitConfig}
use koala_v.Algorithm.Times.{Until}
use koala_v.Algorithm.Counter.{Holds, entry_of, Holds-later, Holds-fresh, open-Holds, more-Holds}
use koala_v.Algorithm.Count.{browse, update}

module _ {S : Type 0} (store : Storage S) (key : Text) (limit : LimitConfig) where
  -- The updates of one key at the given instants.
  abbrev pub run : List ℤ → S → S
  run [] s = s
  run (t ∷ ts) s = run ts (update store t key limit s).1

module _ {S : Type 0} (store : Storage S) (laws : CounterLaws store) (key : Text)
    (limit : LimitConfig) where
  open laws use {IsOpen, live}

  run-Holds :
      (t now : ℤ) (ts : List ℤ) (n : ℕ) (dl : ℤ) (s : S)
      → Holds store laws key t (entry_of n dl) s
      → Until t ts now
      → All (λ u. u ≤ℤ dl) ts
      → n + length ts < two63
      → Holds store laws key now (entry_of (n + length ts) dl) (run store key limit ts s)
  unfolding update
  run-Holds t now [] n dl s h order in_time small =
      rw add-zero (Holds-later store laws key t now (entry_of n dl) s h order)
  run-Holds t now (u ∷ us) n dl s h (le, order) (soon, in_time) small =
      let h' = more-Holds store laws key t u limit.time n dl s h le soon (omega arith) in
      rw (add-suc, ← suc-add) (run-Holds u now us (suc n) dl _ h' order in_time (omega arith))

  browse-Holds :
      (now : ℤ) (n : ℕ) (dl : ℤ) (s : S)
      → Holds store laws key now (entry_of n dl) s
      → ((browse store now key limit s).0
          ≡ (if leb_ℤ now dl then leb_ℤ limit.count (pos n) else false))
        × ((browse store now key limit s).1 ≡ none)
  unfolding browse
  browse-Holds now n dl s h = ground (
    arith,
    laws.get_int-value now key s h.is_open,
    laws.get_int-error now key s h.is_open,
    h.at now,
  )

  -- In an open storage that fulfils the laws of counters, from a key with no live counter and with
  -- a positive window, updates at ordered instants in the window of the first, fewer than 2^63 of
  -- them: until the window closes Browse hits exactly when the number of updates has reached the
  -- limit, and after that it does not hit. The counter is the number of updates and lives until the
  -- window closes. No error is returned.
  pub browse-run_window :
      (t now : ℤ) (ts : List ℤ) (s : S)
      → IsOpen s
      → live t key s ≡ none
      → pos 0 <ℤ limit.time
      → Until t ts now
      → All (λ u. u ≤ℤ t +ℤ limit.time) ts
      → suc (length ts) < two63
      → ((browse store now key limit (run store key limit (t ∷ ts) s)).0 ≡ (
          if leb_ℤ now (t +ℤ limit.time) then leb_ℤ limit.count (pos (suc (length ts))) else false))
        × ((browse store now key limit (run store key limit (t ∷ ts) s)).1 ≡ none)
        × (live now key (run store key limit (t ∷ ts) s)
            ≡ still now (entry_of (suc (length ts)) (t +ℤ limit.time)))
  unfolding update
  browse-run_window t now ts s op fresh positive order in_time small =
      let h = Holds-fresh store laws key t s op fresh in
      let h₁ = open-Holds store laws key t t limit.time s h (omega arith) positive in
      let h' = run-Holds t now ts 1 (t +ℤ limit.time) _ h₁ order in_time (omega arith) in
      let (hit, no_error) = browse-Holds now _ _ _ h' in
      (ground (arith, hit), no_error, ground (arith, h'.at now))
