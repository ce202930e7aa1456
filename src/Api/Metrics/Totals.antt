-- ===== src/Api/Metrics/Totals.antt =====
-- What the metrics count.
use koala_v.Prelude.{
  ℕ, suc, ◌+◌, ◌<◌, ◌≤◌, ◌==◌, ap, ◌∙◌, milliseconds, ℤ, pos, ◌+ℤ◌, leb_ℤ, wrap64,
  wrap64_of_IsInt64, two63, Text, text_eq, text_eq_iff, Table, lookup, lookup-insert, length, List,
  [], ◌∷◌, Option, none, some, ◌≡◌, refl, arith, if◌then◌else◌, +ℤ_parts,
}
use koala_v.Api.Metrics.{
  MetricsMiddleware, new_metrics_middleware, or_zero, add_at, Handled, metric_key, record_request,
  PathMetrics, average, metrics_of, get_metrics,
}

-- The requests of a key, those of them that failed, and the sum of their latencies, newest first.
abbrev is_of : Text → Handled → ℕ
is_of key h = if text_eq (metric_key h) key then 1 else 0

abbrev pub requests : Text → List Handled → ℕ
requests key [] = 0
requests key (h ∷ hs) = is_of key h + requests key hs

abbrev pub failures : Text → List Handled → ℕ
failures key [] = 0
failures key (h ∷ hs) = (if leb_ℤ (pos 400) h.status then is_of key h else 0) + failures key hs

abbrev pub latency : Text → List Handled → ℤ
latency key [] = pos 0
latency key (h ∷ hs) =
    if text_eq (metric_key h) key then wrap64 (latency key hs +ℤ h.latency) else latency key hs

-- The state after requests, the newest first.
unfoldable pub record_all : List Handled → MetricsMiddleware
record_all [] = new_metrics_middleware
record_all (h ∷ hs) = record_request h (record_all hs)

or_zero-add_at :
    (k j : Text) (v : ℤ) (m : Table ℤ)
    → or_zero (lookup j (add_at k v m))
      ≡ (if text_eq k j then wrap64 (or_zero (lookup k m) +ℤ v) else or_zero (lookup j m))
unfolding add_at
or_zero-add_at k j v m = ground (arith, lookup-insert k j (wrap64 (or_zero (lookup k m) +ℤ v)) m)

add_one :
    (k j : Text) (n : ℕ) (m : Table ℤ)
    → or_zero (lookup j m) ≡ pos n
    → suc n < two63
    → or_zero (lookup j (add_at k (pos 1) m)) ≡ pos ((if text_eq k j then 1 else 0) + n)
add_one k j n m e h = ground (
  arith,
  or_zero-add_at k j (pos 1) m,
  text_eq_iff k j,
  e,
  +ℤ_parts (pos n) (pos 1),
  wrap64_of_IsInt64 (pos n +ℤ pos 1),
)

requests-length : (key : Text) (hs : List Handled) → requests key hs ≤ length hs
requests-length key [] = omega arith
requests-length key (h ∷ hs) = ground (arith, requests-length key hs)

failures-requests : (key : Text) (hs : List Handled) → failures key hs ≤ requests key hs
failures-requests key [] = omega arith
failures-requests key (h ∷ hs) = ground (arith, failures-requests key hs)

-- The entry that a number of requests leaves.
abbrev entry : ℕ → Option ℤ
entry n = if n == 0 then none else some (pos n)

lookup-add_at :
    (k j : Text) (n : ℕ) (m : Table ℤ)
    → lookup j m ≡ entry n
    → suc n < two63
    → lookup j (add_at k (pos 1) m) ≡ entry ((if text_eq k j then 1 else 0) + n)
unfolding add_at
lookup-add_at k j n m e h = ground (
  arith,
  lookup-insert k j (wrap64 (or_zero (lookup k m) +ℤ pos 1)) m,
  text_eq_iff k j,
  e,
  +ℤ_parts (pos n) (pos 1),
  wrap64_of_IsInt64 (pos n +ℤ pos 1),
)

total_requests-record_all :
    (key : Text) (hs : List Handled)
    → suc (length hs) < two63
    → lookup key (record_all hs).total_requests ≡ entry (requests key hs)
unfolding record_all lookup record_request
total_requests-record_all key [] h = refl
total_requests-record_all key (r ∷ hs) h =
    lookup-add_at (metric_key r) key (requests key hs) _
      (total_requests-record_all key hs (omega (arith, h)))
      (omega (arith, requests-length key hs, h))

failed_requests-record_all :
    (key : Text) (hs : List Handled)
    → suc (length hs) < two63
    → or_zero (lookup key (record_all hs).failed_requests) ≡ pos (failures key hs)
unfolding record_all lookup record_request
failed_requests-record_all key [] h = refl
failed_requests-record_all key (r ∷ hs) h =
    let e = failed_requests-record_all key hs (omega (arith, h)) in
    ground (
      arith,
      e,
      add_one (metric_key r) key (failures key hs) (record_all hs).failed_requests e
          (omega (arith, requests-length key hs, failures-requests key hs, h)),
    )

latency_sum-record_all :
    (key : Text) (hs : List Handled)
    → or_zero (lookup key (record_all hs).latency_sum) ≡ latency key hs
unfolding record_all lookup record_request
latency_sum-record_all key [] = refl
latency_sum-record_all key (r ∷ hs) = ground (
  arith,
  latency_sum-record_all key hs,
  or_zero-add_at (metric_key r) key r.latency (record_all hs).latency_sum,
  text_eq_iff (metric_key r) key,
)

latency_count-record_all :
    (hs : List Handled) → (record_all hs).latency_count ≡ (record_all hs).total_requests
unfolding record_all record_request
latency_count-record_all [] = refl
latency_count-record_all (r ∷ hs) = ap (add_at (metric_key r) (pos 1)) (latency_count-record_all hs)

-- The metrics of a key that has an entry.
abbrev metrics_at : MetricsMiddleware → Text → Option ℤ → Option PathMetrics
metrics_at m key none = none
metrics_at m key (some count) = some (record {
  total_requests = count;
  failed_requests = or_zero (lookup key m.failed_requests);
  avg_latency_ms =
      milliseconds
        (average (or_zero (lookup key m.latency_sum)) (or_zero (lookup key m.latency_count)));
})

lookup-metrics_of :
    (m : MetricsMiddleware) (key : Text) (t : Table ℤ)
    → lookup key (metrics_of m t) ≡ metrics_at m key (lookup key t)
unfolding lookup metrics_of
lookup-metrics_of m key [] = refl
lookup-metrics_of m key ((k, c) ∷ t) = ground (arith, lookup-metrics_of m key t, text_eq_iff k key)

-- After fewer than 2^63 - 1 requests on a new MetricsMiddleware, GetMetrics has an entry for a key
-- exactly if a request had it, and the entry holds their number, the number of those whose status
-- was 400 or more, and the milliseconds of the average of their latencies, whose sum wraps around.
pub lookup-get_metrics :
    (key : Text) (hs : List Handled)
    → suc (length hs) < two63
    → lookup key (get_metrics (record_all hs)) ≡ (
        if requests key hs == 0
        then none
        else some (record {
          total_requests = pos (requests key hs);
          failed_requests = pos (failures key hs);
          avg_latency_ms = milliseconds (average (latency key hs) (pos (requests key hs)));
        }))
lookup-get_metrics key hs h =
    let total = total_requests-record_all key hs h in
    let count : lookup key (record_all hs).latency_count ≡ entry (requests key hs) =
      ap (lookup key) (latency_count-record_all hs) ∙ total in
    ground (
      arith,
      lookup-metrics_of (record_all hs) key (record_all hs).total_requests,
      total,
      count,
      failed_requests-record_all key hs h,
      latency_sum-record_all key hs,
    )
