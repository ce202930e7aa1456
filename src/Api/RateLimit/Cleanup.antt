-- ===== src/Api/RateLimit/Cleanup.antt =====
-- Cleanups of RateLimitMiddleware do not show.
use koala_v.Prelude.{
  ℤ, ◌≤ℤ◌, ltb_ℤ, +ℤ_parts, -ℤ_parts, Text, lookup, Option-cases, inl, inr, lookup-insert_self, ap,
  sym, ◌∙◌, true, some, ◌≡◌, arith,
}
use koala_v.Api.RateLimit.{
  RateLimitCounter, RateLimit, open_window, count_request, passes, handle, is_stale, cleanup,
}
use koala_v.Api.RateLimit.Valid.{IsValid, IsCounter, cleanup-Kept}

-- A stale counter of a valid state has no window open, then or later.
open_window-stale :
    (clock now later limit window : ℤ) (c : RateLimitCounter)
    → IsCounter clock limit window c
    → now ≤ℤ later
    → is_stale now window c ≡ true
    → ltb_ℤ c.window_end later ≡ true
open_window-stale clock now later limit window c v h s =
    ground (arith, v.ends, +ℤ_parts c.last_access window, -ℤ_parts now c.last_access)

open_window-Kept :
    (clock now later : ℤ) (j : Text) (r : RateLimit)
    → IsValid clock r
    → now ≤ℤ later
    → open_window later (lookup j (cleanup now r).counters)
      ≡ open_window later (lookup j r.counters)
unfolding open_window
open_window-Kept clock now later j r v h = elim (Option-cases (lookup j r.counters)) [
  | inl e ↦ ground (arith, cleanup-Kept now j r)
  | inr (c, e) ↦ ground (
    arith,
    cleanup-Kept now j r,
    open_window-stale clock now later r.limit r.window c (v.counters j c e) h,
  )
]

pub lookup-handle :
    (now : ℤ) (ip : Text) (r : RateLimit)
    → lookup ip (handle now ip r).1.counters
      ≡ some (count_request now r.limit r.window (open_window now (lookup ip r.counters)))
unfolding handle
lookup-handle now ip r = lookup-insert_self ip _ r.counters

-- In a valid state, a cleanup at an instant does not show: a request of any address at that
-- instant or later passes or fails as it would have without the cleanup, and leaves the same
-- counter of its address.
handle-cleanup :
    (clock now later : ℤ) (ip : Text) (r : RateLimit)
    → IsValid clock r
    → now ≤ℤ later
    → ((handle later ip (cleanup now r)).0 ≡ (handle later ip r).0)
      × (lookup ip (handle later ip (cleanup now r)).1.counters
          ≡ lookup ip (handle later ip r).1.counters)
unfolding handle cleanup
handle-cleanup clock now later ip r v h =
    let e = open_window-Kept clock now later ip r v h in
    (
      ap (passes r.limit) e,
      lookup-handle later ip (cleanup now r)
          ∙ ap (λ o. some (count_request later r.limit r.window o)) e
          ∙ sym (lookup-handle later ip r),
    )
