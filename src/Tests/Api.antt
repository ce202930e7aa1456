-- ===== src/Tests/Api.antt =====
-- The theorems of the HTTP layer at concrete inputs.
use koala_v.Prelude.{
  suc, ℤ, pos, negsuc, ◌+ℤ◌, ltb_ℤ, leb_ℤ, two63, ◌-◌, ◌==◌, Text, bytes, text_eq, lookup,
  milliseconds, List, [], ◌∷◌, false, none, some, ◌≡◌, refl, arith, if◌then◌else◌,
}
use koala_v.Matcher.Number.{parse_int}
use koala_v.Api.RateLimit.{RateLimit, new_rate_limit, handle, cleanup}
use koala_v.Api.RateLimit.Valid
use koala_v.Api.RateLimit.Valid.{IsValid, World, Reach, Reach-IsValid}
use koala_v.Api.RateLimit.Windows.{Event, request, clean, run, requests, handle-run}
use koala_v.Api.Numbers.{int_to_string}
use koala_v.Api.Numbers.Printed.{parse_int-int_to_string}
use koala_v.Api.Metrics.{Handled, PathMetrics, get_metrics, average}
use koala_v.Api.Metrics.Totals.{lookup-get_metrics, record_all}
use koala_v.Api.Metrics.Totals
use koala_v.Api.Cors.{cors_decision, cors_middleware_with_config, decided}

abbrev busy : RateLimit
busy = new_rate_limit (pos 2) (pos 10)

abbrev between_requests : List (ℤ × Event)
between_requests = (pos 101, request (bytes "b")) ∷ (pos 103, clean) ∷ []

handle-run_example :
    (handle (pos 105) (bytes "a") (run ((pos 100, request (bytes "a")) ∷ between_requests) busy)).0
    ≡ ltb_ℤ (pos (suc (requests (bytes "a") between_requests))) (pos 2)
unfolding new_rate_limit lookup koala_v.Api.RateLimit.open_window ◌+ℤ◌
handle-run_example =
    handle-run (pos 2) (pos 10) (pos 100) (bytes "a") (omega arith) (pos 105) between_requests busy
      refl refl refl (omega arith, (omega arith, omega arith)) (omega arith)

Reach-IsValid_example : IsValid (pos 7) (cleanup (pos 7) (handle (pos 5) (bytes "a") busy).1)
Reach-IsValid_example =
    Reach-IsValid (pos 0) (pos 2) (pos 10)
      (record { clock = pos 7; limiter = cleanup (pos 7) (handle (pos 5) (bytes "a") busy).1 })
      (omega arith)
      (koala_v.Api.RateLimit.Valid.next
        (koala_v.Api.RateLimit.Valid.next koala_v.Api.RateLimit.Valid.here
          (koala_v.Api.RateLimit.Valid.request (pos 5) (bytes "a") (omega arith)))
        (koala_v.Api.RateLimit.Valid.clean (pos 7) (omega arith)))

parse_int-int_to_string_example :
    (t : Text) × (int_to_string (negsuc 41) ≡ some t)
    × (parse_int t ≡ (if leb_ℤ (negsuc 41) (negsuc (two63 - 1)) then none else some (negsuc 41)))
parse_int-int_to_string_example = parse_int-int_to_string (negsuc 41) (omega arith)

abbrev failed_browse : Handled
failed_browse = record {
  method = bytes "POST";
  path = bytes "/api/v1/browse";
  full_path = bytes "/api/v1/browse";
  status = pos 500;
  latency = pos 3000000;
}

lookup-get_metrics_example : lookup (bytes "k") (get_metrics (record_all (failed_browse ∷ []))) ≡ (
    if koala_v.Api.Metrics.Totals.requests (bytes "k") (failed_browse ∷ []) == 0
    then none
    else some (record {
      total_requests = pos (koala_v.Api.Metrics.Totals.requests (bytes "k") (failed_browse ∷ []));
      failed_requests = pos (koala_v.Api.Metrics.Totals.failures (bytes "k") (failed_browse ∷ []));
      avg_latency_ms = milliseconds (
          average
            (koala_v.Api.Metrics.Totals.latency (bytes "k") (failed_browse ∷ []))
            (pos (koala_v.Api.Metrics.Totals.requests (bytes "k") (failed_browse ∷ []))));
    }))
lookup-get_metrics_example = lookup-get_metrics (bytes "k") (failed_browse ∷ []) (omega arith)

cors_decision_example :
    cors_middleware_with_config (bytes "a" ∷ []) (bytes "a") (bytes "OPTIONS")
    ≡ decided false
        (koala_v.Api.Cors.contains (bytes "a") (bytes "a" ∷ []))
        (bytes "a")
        (bytes "OPTIONS")
unfolding text_eq
cors_decision_example = cors_decision (bytes "a" ∷ []) (bytes "a") (bytes "OPTIONS")
