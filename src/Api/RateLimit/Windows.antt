-- ===== src/Api/RateLimit/Windows.antt =====
-- What RateLimitMiddleware admits in a window.
use koala_v.Prelude.{
  ℕ, suc, ◌+◌, ℤ, pos, ◌+ℤ◌, ◌≤ℤ◌, ltb_ℤ, leb_ℤ, IsInt64, wrap64_of_IsInt64, +ℤ_parts, -ℤ_parts,
  Text, text_eq, text_eq_iff, lookup, lookup-insert, List, [], ◌∷◌, Bool-cases, inl, inr,
  lookup-insert_self, false, none, some, ◌≡◌, refl, arith, if◌then◌else◌,
}
use koala_v.Api.RateLimit.{
  RateLimitCounter, RateLimit, open_window, count_request, passes, handle, cleanup, fresh_counter,
}
use koala_v.Api.RateLimit.Valid.{cleanup-Kept}
use koala_v.Api.RateLimit.Cleanup.{lookup-handle}

-- What happens to the middleware between two requests of an address.
pub data Event : Type 0 where
  request : Text → Event
  clean : Event

unfoldable pub step : ℤ → Event → RateLimit → RateLimit
step now (request ip) r = (handle now ip r).1
step now clean r = cleanup now r

unfoldable pub run : List (ℤ × Event) → RateLimit → RateLimit
run [] r = r
run ((now, e) ∷ es) r = run es (step now e r)

-- The instants stand in order between two others.
abbrev pub Between : ℤ → List (ℤ × Event) → ℤ → Type 0
Between t [] now = t ≤ℤ now
Between t ((u, e) ∷ es) now = (t ≤ℤ u) × Between u es now

abbrev is_from : Text → Event → ℕ
is_from ip (request j) = if text_eq j ip then 1 else 0
is_from ip clean = 0

-- The requests of an address.
abbrev pub requests : Text → List (ℤ × Event) → ℕ
requests ip [] = 0
requests ip ((u, e) ∷ es) = is_from ip e + requests ip es

Between-le : (t now : ℤ) (es : List (ℤ × Event)) → Between t es now → t ≤ℤ now
Between-le t now [] h = h
Between-le t now ((u, e) ∷ es) h = omega (arith, h.0, Between-le u now es h.1)

module _ (limit window t : ℤ) (ip : Text) (b : IsInt64 limit) where
  -- The counter of an address after `n` requests since the window was opened at `t`.
  record Counted (n : ℕ) (r : RateLimit) : Type 0 where
    limit_is : r.limit ≡ limit
    window_is : r.window ≡ window
    counter : RateLimitCounter
    found : lookup ip r.counters ≡ some counter
    ends : counter.window_end ≡ t +ℤ window
    accessed : t ≤ℤ counter.last_access
    exact : leb_ℤ limit counter.count ≡ false → counter.count ≡ pos n
    same : leb_ℤ limit counter.count ≡ leb_ℤ limit (pos n)

  first-Counted :
      (r : RateLimit)
      → r.limit ≡ limit
      → r.window ≡ window
      → open_window t (lookup ip r.counters) ≡ none
      → Counted 1 (handle t ip r).1
  unfolding handle count_request
  first-Counted r l w o = record {
    limit_is = l;
    window_is = w;
    counter = fresh_counter t window;
    found = ground (arith, lookup-insert_self ip (fresh_counter t window) r.counters);
    ends = refl;
    accessed = ground arith;
    exact = λ h. refl;
    same = refl;
  }

  counted : (now : ℤ) → RateLimitCounter → RateLimitCounter
  unfolding count_request
  counted now c = count_request now limit window (some c)

  own-Counted :
      (now : ℤ) (n : ℕ) (r : RateLimit)
      → t ≤ℤ now
      → now ≤ℤ t +ℤ window
      → Counted n r
      → Counted (suc n) (handle now ip r).1
  unfolding handle count_request open_window counted
  own-Counted now n r le soon h = record {
    limit_is = h.limit_is;
    window_is = h.window_is;
    counter = counted now h.counter;
    found = ground (arith, lookup-handle now ip r, h.found, h.ends, h.limit_is, h.window_is, soon);
    ends = ground (arith, h.ends);
    accessed = ground (arith, le);
    exact = ground (
      arith,
      h.exact,
      h.same,
      +ℤ_parts h.counter.count (pos 1),
      wrap64_of_IsInt64 (h.counter.count +ℤ pos 1),
    );
    same = ground (
      arith,
      h.exact,
      h.same,
      +ℤ_parts h.counter.count (pos 1),
      wrap64_of_IsInt64 (h.counter.count +ℤ pos 1),
    );
  }

  clean-Counted :
      (now : ℤ) (n : ℕ) (r : RateLimit)
      → t ≤ℤ now
      → now ≤ℤ t +ℤ window
      → Counted n r
      → Counted n (cleanup now r)
  unfolding cleanup
  clean-Counted now n r le soon h = record {
    limit_is = h.limit_is;
    window_is = h.window_is;
    counter = h.counter;
    found = ground (
      arith,
      cleanup-Kept now ip r,
      h.found,
      h.window_is,
      h.accessed,
      -ℤ_parts now h.counter.last_access,
      +ℤ_parts t window,
      soon,
    );
    ends = h.ends;
    accessed = h.accessed;
    exact = h.exact;
    same = h.same;
  }

  other-Counted :
      (now : ℤ) (j : Text) (n : ℕ) (r : RateLimit)
      → text_eq j ip ≡ false
      → Counted n r
      → Counted n (handle now j r).1
  unfolding handle
  other-Counted now j n r ne h = record {
    limit_is = h.limit_is;
    window_is = h.window_is;
    counter = h.counter;
    found = ground (
      arith,
      lookup-insert j ip
          (count_request now r.limit r.window (open_window now (lookup j r.counters))) r.counters,
      ne,
      h.found,
    );
    ends = h.ends;
    accessed = h.accessed;
    exact = h.exact;
    same = h.same;
  }

  as_many : (m n : ℕ) (r : RateLimit) → m ≡ n → Counted m r → Counted n r
  as_many m n r e h = rw (← e) h

  step-Counted :
      (now : ℤ) (e : Event) (n : ℕ) (r : RateLimit)
      → t ≤ℤ now
      → now ≤ℤ t +ℤ window
      → Counted n r
      → Counted (is_from ip e + n) (step now e r)
  unfolding step
  step-Counted now (request j) n r le soon h = elim (Bool-cases (text_eq j ip)) [
    | inl e ↦
        let h' : Counted (suc n) (handle now j r).1 =
          rw ((text_eq_iff j ip).0 e) (own-Counted now n r le soon h) in
        as_many (suc n) (is_from ip (request j) + n) _ (ground (arith, e)) h'
    | inr e ↦
        as_many n (is_from ip (request j) + n) _ (ground (arith, e)) (other-Counted now j n r e h)
  ]
  step-Counted now clean n r le soon h =
      as_many n (0 + n) _ (omega arith) (clean-Counted now n r le soon h)

  run-Counted :
      (u now : ℤ) (es : List (ℤ × Event)) (n : ℕ) (r : RateLimit)
      → t ≤ℤ u
      → Between u es now
      → now ≤ℤ t +ℤ window
      → Counted n r
      → Counted (requests ip es + n) (run es r)
  unfolding run
  run-Counted u now [] n r le order soon h = as_many n (0 + n) r (omega arith) h
  run-Counted u now ((v, e) ∷ es) n r le (le', order) soon h =
      let h' =
        step-Counted v e n r (omega (arith, le, le'))
          (omega (arith, soon, Between-le v now es order)) h in
      as_many _ _ _ (omega arith) (run-Counted v now es _ _ (omega (arith, le, le')) order soon h')

  -- For an int64 limit, from a state in which an address has no window open, after its request at
  -- `t`, and after any further events at ordered instants up to `now`, which is at most a window
  -- after `t`: a request of the address at `now` passes exactly when fewer than `limit` requests
  -- of the address came since `t`, that one included. Requests of other addresses and cleanups
  -- do not matter.
  pub handle-run :
      (now : ℤ) (es : List (ℤ × Event)) (r : RateLimit)
      → r.limit ≡ limit
      → r.window ≡ window
      → open_window t (lookup ip r.counters) ≡ none
      → Between t es now
      → now ≤ℤ t +ℤ window
      → (handle now ip (run ((t, request ip) ∷ es) r)).0 ≡ ltb_ℤ (pos (suc (requests ip es))) limit
  unfolding handle run step open_window passes
  handle-run now es r l w o order soon =
      let c = run-Counted t now es 1 _ (omega arith) order soon (first-Counted r l w o) in
      ground (arith, c.found, c.same, c.ends, c.limit_is, soon)
