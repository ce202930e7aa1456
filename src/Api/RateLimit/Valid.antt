-- ===== src/Api/RateLimit/Valid.antt =====
-- The invariant of RateLimitMiddleware under requests and cleanups.
use koala_v.Prelude.{
  ℤ, pos, ◌+ℤ◌, ◌≤ℤ◌, IsInt64, wrap64_of_IsInt64, +ℤ_parts, Text, Table, text_eq_iff, lookup,
  insert, lookup-insert, lookup-delete, keys, List, [], ◌∷◌, true, false, Bool, Option, none, some,
  ◌⊎◌, inl, ◌≡◌, refl, arith,
}
use koala_v.Api.RateLimit.{
  RateLimitCounter, RateLimit, new_rate_limit, open_window, count_request, handle, is_stale,
  sweep_key, sweep, cleanup,
}

-- A counter counts from one up to the limit, and its window ends a window after its last access at
-- the latest, which is not after the clock.
pub record IsCounter (clock limit window : ℤ) (c : RateLimitCounter) : Type 0 where
  pub counted : pos 1 ≤ℤ c.count
  pub limited : (c.count ≤ℤ limit) ⊎ (c.count ≡ pos 1)
  pub ends : c.window_end ≤ℤ c.last_access +ℤ window
  pub accessed : c.last_access ≤ℤ clock

pub record IsValid (clock : ℤ) (r : RateLimit) : Type 0 where
  pub bounded : IsInt64 r.limit
  pub counters :
      (ip : Text) (c : RateLimitCounter)
      → lookup ip r.counters ≡ some c
      → IsCounter clock r.limit r.window c

IsCounter-later :
    (clock now limit window : ℤ) (c : RateLimitCounter)
    → clock ≤ℤ now
    → IsCounter clock limit window c
    → IsCounter now limit window c
IsCounter-later clock now limit window c h v = ground arith

count_request-IsCounter :
    (now limit window : ℤ) (o : Option RateLimitCounter)
    → IsInt64 limit
    → ((c : RateLimitCounter) → o ≡ some c → IsCounter now limit window c)
    → IsCounter now limit window (count_request now limit window (open_window now o))
unfolding count_request open_window
count_request-IsCounter now limit window none b h = ground (arith, +ℤ_parts now window)
count_request-IsCounter now limit window (some c) b h =
    let v = h c refl in
    ground (
      arith,
      wrap64_of_IsInt64 (c.count +ℤ pos 1),
      v,
      +ℤ_parts c.count (pos 1),
      +ℤ_parts now window,
      +ℤ_parts c.last_access window,
    )

-- Whether a counter is there and stale.
abbrev pub stale : ℤ → ℤ → Option RateLimitCounter → Bool
stale now window none = false
stale now window (some c) = is_stale now window c

-- A cleanup leaves a counter as it is, or deletes it because it is stale.
abbrev pub Kept : ℤ → ℤ → Option RateLimitCounter → Option RateLimitCounter → Type 0
Kept now window o o' = (o' ≡ o) ⊎ ((o' ≡ none) × (stale now window o ≡ true))

sweep_key-Kept :
    (now window : ℤ) (ip j : Text) (m : Table RateLimitCounter)
    → Kept now window (lookup j m) (lookup j (sweep_key now window ip m))
unfolding sweep_key
sweep_key-Kept now window ip j m = ground (arith, lookup-delete ip j m, text_eq_iff ip j)

Kept-trans :
    (now window : ℤ) (a b c : Option RateLimitCounter)
    → Kept now window a b
    → Kept now window b c
    → Kept now window a c
Kept-trans now window a b c h k = ground arith

sweep-Kept :
    (now window : ℤ) (j : Text) (ips : List Text) (m : Table RateLimitCounter)
    → Kept now window (lookup j m) (lookup j (sweep now window ips m))
unfolding sweep
sweep-Kept now window j [] m = inl refl
sweep-Kept now window j (ip ∷ ips) m =
    Kept-trans now window _ _ _ (sweep_key-Kept now window ip j m)
      (sweep-Kept now window j ips (sweep_key now window ip m))

pub cleanup-Kept :
    (now : ℤ) (j : Text) (r : RateLimit)
    → Kept now r.window (lookup j r.counters) (lookup j (cleanup now r).counters)
unfolding cleanup
cleanup-Kept now j r = sweep-Kept now r.window j (keys r.counters) r.counters

counter_cases :
    (now : ℤ) (ip j : Text) (r : RateLimit) (new : RateLimitCounter)
    → IsCounter now r.limit r.window new
    → ((d : RateLimitCounter) → lookup j r.counters ≡ some d → IsCounter now r.limit r.window d)
    → (c : RateLimitCounter) → lookup j (insert ip new r.counters) ≡ some c
    → IsCounter now r.limit r.window c
counter_cases now ip j r new old others c e =
    ground (arith, lookup-insert ip j new r.counters, others c)

handle-IsValid :
    (clock now : ℤ) (ip : Text) (r : RateLimit)
    → clock ≤ℤ now
    → IsValid clock r
    → IsValid now (handle now ip r).1
unfolding handle
handle-IsValid clock now ip r h v = record {
  bounded = v.bounded;
  counters = λ j c e.
      let old =
        count_request-IsCounter now r.limit r.window (lookup ip r.counters) v.bounded
          (λ d f. IsCounter-later clock now r.limit r.window d h (v.counters ip d f)) in
      counter_cases now ip j r _ old
        (λ d f. IsCounter-later clock now r.limit r.window d h (v.counters j d f)) c e;
}

cleanup-IsValid :
    (clock now : ℤ) (r : RateLimit) → clock ≤ℤ now → IsValid clock r → IsValid now (cleanup now r)
unfolding cleanup
cleanup-IsValid clock now r h v = record {
  bounded = v.bounded;
  counters = λ j c e.
      ground (
        arith,
        cleanup-Kept now j r,
        IsCounter-later clock now r.limit r.window c h,
        v.counters j c,
      );
}

-- The middleware with the instant of its last step.
pub record World : Type 0 where
  pub clock : ℤ
  pub limiter : RateLimit

-- Requests and cleanups, in any order, at instants that do not decrease.
pub data Step (w : World) : World → Type 0 where
  request :
      (now : ℤ) (ip : Text)
      → w.clock ≤ℤ now
      → Step w (record { clock = now; limiter = (handle now ip w.limiter).1 })
  clean :
      (now : ℤ) → w.clock ≤ℤ now → Step w (record { clock = now; limiter = cleanup now w.limiter })

pub data Reach (w : World) : World → Type 0 where
  here : Reach w w
  next : {u v : World} → Reach w u → Step u v → Reach w v

Step-IsValid : {u w : World} → Step u w → IsValid u.clock u.limiter → IsValid w.clock w.limiter
Step-IsValid {u} (request now ip h) v = handle-IsValid u.clock now ip u.limiter h v
Step-IsValid {u} (clean now h) v = cleanup-IsValid u.clock now u.limiter h v

Reach-keeps : {u w : World} → Reach u w → IsValid u.clock u.limiter → IsValid w.clock w.limiter
Reach-keeps here v = v
Reach-keeps (next r s) v = Step-IsValid s (Reach-keeps r v)

new-IsValid : (clock limit window : ℤ) → IsInt64 limit → IsValid clock (new_rate_limit limit window)
unfolding new_rate_limit lookup
new-IsValid clock limit window b = record { bounded = b; counters = λ ip c e. ground arith }

-- From a new RateLimitMiddleware with an int64 limit, requests and cleanups in any order, at
-- instants that do not decrease, lead only to states in which every counter is at least one, is
-- at most the limit or else one, and has a window that ends at most the window's length after its
-- last access, which is not later than the clock.
pub Reach-IsValid :
    (clock limit window : ℤ) (w : World)
    → IsInt64 limit
    → Reach (record { clock = clock; limiter = new_rate_limit limit window }) w
    → IsValid w.clock w.limiter
Reach-IsValid clock limit window w b r = Reach-keeps r (new-IsValid clock limit window b)
