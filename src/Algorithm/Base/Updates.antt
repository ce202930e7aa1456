-- ===== src/Algorithm/Base/Updates.antt =====
-- What a window of updates leaves of the two counters of Base.
use koala_v.Prelude.{
  ℕ, suc, ◌+◌, ◌-◌, ◌≤◌, ◌<◌, ℤ, pos, ◌+ℤ◌, ◌≤ℤ◌, ◌<ℤ◌, two63, +ℤ_parts, int_laws, Text, length,
  List, [], ◌∷◌, All, none, ◌≡◌, arith,
}
use native.Mathlib.Nat.{add-zero, add-suc, suc-add}
use native.Mathlib.Decide.{dec_le}
use koala_v.Storage.{Storage}
use koala_v.Storage.Laws.{CounterLaws}
use koala_v.Algorithm.Limit.{LimitConfig}
use koala_v.Algorithm.Times.{Until}
use koala_v.Algorithm.Counter.{
  Holds, entry_of, open-Holds, more-Holds, incr_other-Holds, open-value, more-value,
}
use koala_v.Algorithm.Base.{update, clamp_ttl, week, total_key, secondary_key}
use koala_v.Algorithm.Base.Ttl.{keys_differ, keys_differ', clamp_ttl_bounds, le-clamp_ttl}

module _ {S : Type 0} (store : Storage S) (key : Text) (limit : LimitConfig) where
  -- The updates of one key at the given instants.
  abbrev pub run : List ℤ → S → S
  run [] s = s
  run (t ∷ ts) s = run ts (update store t key limit s).1

one_above : (b n : ℕ) → n ≤ b → b < suc n → suc n - b ≡ 1
one_above b n h k = omega arith

more_above : (b n : ℕ) → b < n → suc n - b ≡ suc (n - b)
more_above b n h = omega arith

module _ {S : Type 0} (store : Storage S) (laws : CounterLaws store) (key : Text)
    (limit : LimitConfig) (b : ℕ) (threshold : limit.base ≡ pos b) (positive : pos 0 <ℤ limit.time)
    (short : limit.time ≤ℤ week) where
  open laws use {IsOpen, live}

  -- The second counter after n updates, the first of them at t₀: none up to the threshold, then
  -- one for each update above it, with a deadline that the window does not pass.
  pub data Second (t₀ t : ℤ) (n : ℕ) (s : S) : Type 0 where
    below : n ≤ b → Holds store laws (secondary_key key) t none s → Second t₀ t n s
    above :
        b < n
        → (dl : ℤ) → t₀ +ℤ limit.time ≤ℤ dl
        → Holds store laws (secondary_key key) t (entry_of (n - b) dl) s
        → Second t₀ t n s

  pub record Counted (t₀ t : ℤ) (n : ℕ) (s : S) : Type 0 where
    pub since : t₀ ≤ℤ t
    pub total : Holds store laws (total_key key) t (entry_of n (t₀ +ℤ clamp_ttl limit.time)) s
    pub second : Second t₀ t n s

  -- The state after Update, by the value that the total counter has reached.
  after_total : ℤ → S → S
  after_total u s = (store.incr_with_ttl u (total_key key) (clamp_ttl limit.time) s).2

  after_both : ℤ → S → S
  after_both u s = (store.incr_with_ttl u (secondary_key key) limit.time (after_total u s)).2

  update-at :
      (u : ℤ) (m : ℕ) (s : S)
      → IsOpen s
      → (store.incr_with_ttl u (total_key key) (clamp_ttl limit.time) s).0 ≡ pos m
      → (m ≤ b → (update store u key limit s).1 ≡ after_total u s)
        × (b < m → (update store u key limit s).1 ≡ after_both u s)
        × ((update store u key limit s).0 ≡ none)
  unfolding update after_both after_total
  update-at u m s op value =
      let op' = laws.incr_with_ttl-IsOpen u (total_key key) (clamp_ttl limit.time) s op in
      ground (
        arith,
        laws.incr_with_ttl-error u (total_key key) (clamp_ttl limit.time) s op,
        laws.incr_with_ttl-error u (secondary_key key) limit.time (after_total u s) op',
      )

  pub in_window : (t₀ u : ℤ) → u ≤ℤ t₀ +ℤ limit.time → u ≤ℤ t₀ +ℤ clamp_ttl limit.time
  in_window t₀ u h = omega (
    arith,
    +ℤ_parts t₀ limit.time,
    +ℤ_parts t₀ (clamp_ttl limit.time),
    le-clamp_ttl limit.time positive short,
  )

  Second-below :
      (t₀ t u : ℤ) (n : ℕ) (s : S)
      → Second t₀ t n s
      → t ≤ℤ u
      → suc n ≤ b
      → Second t₀ u (suc n) (after_total u s)
  unfolding after_total
  Second-below t₀ t u n s (below _ h) le fits = below fits (
      incr_other-Holds store laws (secondary_key key) (total_key key) t u (clamp_ttl limit.time)
        none s (keys_differ key key) h le)
  Second-below t₀ t u n s (above over _ _ _) le fits = absurd (omega arith)

  Second-above :
      (t₀ t u : ℤ) (n : ℕ) (s : S)
      → Second t₀ t n s
      → t₀ ≤ℤ t
      → t ≤ℤ u
      → u ≤ℤ t₀ +ℤ limit.time
      → b < suc n
      → suc n < two63
      → Second t₀ u (suc n) (after_both u s)
  unfolding after_both after_total
  Second-above t₀ t u n s (below under h) since le soon over small =
      let h' =
        incr_other-Holds store laws (secondary_key key) (total_key key) t u (clamp_ttl limit.time)
          none s (keys_differ key key) h le in
      above over (u +ℤ limit.time) (omega int_laws) (
        rw (one_above b n under over)
          (open-Holds store laws (secondary_key key) u u limit.time _ h' (omega arith) positive))
  Second-above t₀ t u n s (above over dl far h) since le soon over' small =
      let h' =
        incr_other-Holds store laws (secondary_key key) (total_key key) t u (clamp_ttl limit.time) _
          s (keys_differ key key) h le in
      above over' dl far (
        rw (more_above b n over) (
          more-Holds store laws (secondary_key key) u u limit.time (n - b) dl _ h' (omega arith)
            (omega int_laws) (omega arith)))

  -- One more update in the window.
  update-Counted :
      (t₀ t u : ℤ) (n : ℕ) (s : S)
      → Counted t₀ t n s
      → t ≤ℤ u
      → u ≤ℤ t₀ +ℤ limit.time
      → suc n < two63
      → Counted t₀ u (suc n) (update store u key limit s).1
  unfolding after_total after_both
  update-Counted t₀ t u n s c le soon small =
      let dl = t₀ +ℤ clamp_ttl limit.time in
      let in_time = in_window t₀ u soon in
      let value =
        more-value store laws (total_key key) t u (clamp_ttl limit.time) n dl s c.total le in_time
          small in
      let total' =
        more-Holds store laws (total_key key) t u (clamp_ttl limit.time) n dl s c.total le in_time
          small in
      let (on_below, on_above, _) = update-at u (suc n) s c.total.is_open value in
      let ttl = clamp_ttl limit.time in
      elim (dec_le (suc n) b) [
        | yes fits ↦ rw (on_below fits) (record {
          since = omega arith;
          total = total';
          second = Second-below t₀ t u n s c.second le fits;
        })
        | no over ↦ rw (on_above (omega arith)) (record {
          since = omega arith;
          total =
              incr_other-Holds store laws (total_key key) (secondary_key key) u u limit.time _ _
                (keys_differ' key key) total' (omega arith);
          second = Second-above t₀ t u n s c.second c.since le soon (omega arith) small;
        })
      ]

  -- The first update of a window.
  pub first-Counted :
      (t : ℤ) (s : S)
      → Holds store laws (total_key key) t none s
      → Holds store laws (secondary_key key) t none s
      → Counted t t 1 (update store t key limit s).1
  unfolding after_total after_both
  first-Counted t s total second =
      let ttl = clamp_ttl limit.time in
      let lasts : pos 0 <ℤ ttl = omega (arith, clamp_ttl_bounds limit.time) in
      let value = open-value store laws (total_key key) t t ttl s total (omega arith) lasts in
      let total' = open-Holds store laws (total_key key) t t ttl s total (omega arith) lasts in
      let none_yet : Second t t 0 s = below (omega arith) second in
      let (on_below, on_above, _) = update-at t 1 s total.is_open value in
      elim (dec_le 1 b) [
        | yes fits ↦ rw (on_below fits) (record {
          since = omega arith;
          total = total';
          second = Second-below t t t 0 s none_yet (omega arith) fits;
        })
        | no over ↦ rw (on_above (omega arith)) (record {
          since = omega arith;
          total =
              incr_other-Holds store laws (total_key key) (secondary_key key) t t limit.time _ _
                (keys_differ' key key) total' (omega arith);
          second =
              Second-above t t t 0 s none_yet (omega arith) (omega arith)
                (omega (arith, +ℤ_parts t limit.time)) (omega arith) (omega arith);
        })
      ]

  pub run-Counted :
      (t₀ t now : ℤ) (ts : List ℤ) (n : ℕ) (s : S)
      → Counted t₀ t n s
      → Until t ts now
      → All (λ u. u ≤ℤ t₀ +ℤ limit.time) ts
      → n + length ts < two63
      → (last : ℤ) × (last ≤ℤ now) × Counted t₀ last (n + length ts) (run store key limit ts s)
  run-Counted t₀ t now [] n s c order in_time small = (t, order, rw add-zero c)
  run-Counted t₀ t now (u ∷ us) n s c (le, order) (soon, in_time) small =
      rw (add-suc, ← suc-add)
        (run-Counted t₀ u now us (suc n) _ (update-Counted t₀ t u n s c le soon (omega arith)) order
          in_time (omega arith))
