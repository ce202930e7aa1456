-- ===== src/Algorithm/Base/Bound.antt =====
-- Browse of Base after the updates of a window.
use koala_v.Prelude.{
  ℕ, suc, ◌+◌, ◌-◌, ◌≤◌, ◌<◌, ℤ, pos, ◌+ℤ◌, ◌≤ℤ◌, ◌<ℤ◌, leb_ℤ, ltb, two63, int_laws, Text, length,
  List, ◌∷◌, All, false, none, ◌≡◌, ◌&&◌, arith,
}
use koala_v.Storage.{Storage}
use koala_v.Storage.Laws.{CounterLaws}
use koala_v.Algorithm.Limit.{LimitConfig}
use koala_v.Algorithm.Times.{Until}
use koala_v.Algorithm.Counter.{Holds-fresh, get_int-Holds, read-Holds}
use koala_v.Algorithm.Base.{browse, week, total_key, secondary_key}
use koala_v.Algorithm.Base.Updates.{
  run, Second, below, above, Counted, in_window, first-Counted, run-Counted,
}

module _ {S : Type 0} (store : Storage S) (laws : CounterLaws store) (key : Text)
    (limit : LimitConfig) (b : ℕ) (threshold : limit.base ≡ pos b) (positive : pos 0 <ℤ limit.time)
    (short : limit.time ≤ℤ week) where
  open laws use {IsOpen, live}

  browse-below :
      (now : ℤ) (n : ℕ) (s : S)
      → ((store.get_int now (total_key key) s).0 ≡ pos n)
      → ((store.get_int now (total_key key) s).1 ≡ none)
      → n ≤ b
      → ((browse store now key limit s).0 ≡ false) × ((browse store now key limit s).1 ≡ none)
  unfolding browse
  browse-below now n s value found under = ground arith

  browse-above :
      (now : ℤ) (n m : ℕ) (s : S)
      → ((store.get_int now (total_key key) s).0 ≡ pos n)
      → ((store.get_int now (total_key key) s).1 ≡ none)
      → b < n
      → ((store.get_int now (secondary_key key) (store.get_int now (total_key key) s).2).0 ≡ pos m)
      → ((store.get_int now (secondary_key key) (store.get_int now (total_key key) s).2).1 ≡ none)
      → ((browse store now key limit s).0 ≡ leb_ℤ limit.count (pos m))
        × ((browse store now key limit s).1 ≡ none)
  unfolding browse
  browse-above now n m s value found over value' found' = ground arith

  browse-Second :
      (t₀ t now : ℤ) (n : ℕ) (s : S)
      → Second store laws key limit b threshold positive short t₀ t n s
      → t ≤ℤ now
      → now ≤ℤ t₀ +ℤ limit.time
      → ((store.get_int now (total_key key) s).0 ≡ pos n)
      → ((store.get_int now (total_key key) s).1 ≡ none)
      → ((browse store now key limit s).0 ≡ (ltb b n && leb_ℤ limit.count (pos (n - b))))
        × ((browse store now key limit s).1 ≡ none)
  browse-Second t₀ t now n s (below under h) le soon value found =
      ground (arith, browse-below now n s value found under)
  browse-Second t₀ t now n s (above over dl far h) le soon value found =
      let h' = get_int-Holds store laws (secondary_key key) (total_key key) t now _ s h le in
      let (value', found') =
        read-Holds store laws (secondary_key key) now now (n - b) dl _ h' (omega arith)
          (omega int_laws) in
      ground (arith, browse-above now n (n - b) s value found over value' found')

  browse-Counted :
      (t₀ t now : ℤ) (n : ℕ) (s : S)
      → Counted store laws key limit b threshold positive short t₀ t n s
      → t ≤ℤ now
      → now ≤ℤ t₀ +ℤ limit.time
      → ((browse store now key limit s).0 ≡ (ltb b n && leb_ℤ limit.count (pos (n - b))))
        × ((browse store now key limit s).1 ≡ none)
  browse-Counted t₀ t now n s c le soon =
      let (value, found) =
        read-Holds store laws (total_key key) t now n _ s c.total le
          (in_window store laws key limit b threshold positive short t₀ now soon) in
      browse-Second t₀ t now n s c.second le soon value found

  -- In an open storage that fulfils the laws of counters, from a key with neither counter live,
  -- with a positive window of at most a week and a threshold b ≥ 0, after updates at ordered
  -- instants in the window of the first, fewer than 2^63 of them: in that window Browse hits
  -- exactly when there are more than b updates and those above b have reached the limit. No error
  -- is returned.
  pub browse-run_threshold :
      (t now : ℤ) (ts : List ℤ) (s : S)
      → IsOpen s
      → live t (total_key key) s ≡ none
      → live t (secondary_key key) s ≡ none
      → Until t ts now
      → All (λ u. u ≤ℤ t +ℤ limit.time) ts
      → now ≤ℤ t +ℤ limit.time
      → suc (length ts) < two63
      → ((browse store now key limit (run store key limit (t ∷ ts) s)).0
          ≡ (ltb b (suc (length ts)) && leb_ℤ limit.count (pos (suc (length ts) - b))))
        × ((browse store now key limit (run store key limit (t ∷ ts) s)).1 ≡ none)
  browse-run_threshold t now ts s op fresh fresh' order in_time soon small =
      let total = Holds-fresh store laws (total_key key) t s op fresh in
      let second = Holds-fresh store laws (secondary_key key) t s op fresh' in
      let (last, le, c) =
        run-Counted store laws key limit b threshold positive short t t now ts 1 _
          (first-Counted store laws key limit b threshold positive short t s total second) order
          in_time (omega arith) in
      ground (arith, browse-Counted t last now (1 + length ts) _ c le soon)
