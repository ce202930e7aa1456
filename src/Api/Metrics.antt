-- ===== src/Api/Metrics.antt =====
-- internal/api/middleware.go: MetricsMiddleware, the request identifiers and CORS; and the page of
-- metrics of internal/api/router.go. `c.Next()` has run: the status and the latency are arguments.
pub mod Totals
pub mod Ids
use koala_v.Prelude.{
  ℕ, suc, ◌+◌, ◌/◌, ◌%◌, ℤ, pos, negsuc, ◌+ℤ◌, leb_ℤ, ltb_ℤ, sub_ℕ, wrap64, two64, milliseconds,
  Text, bytes, utf8, text_eq, Table, lookup, insert, keys, List, [], ◌∷◌, ◌++◌, Bool, true, false,
  ◌||◌, Option, none, some, if◌then◌else◌,
}
use koala_v.Api.Numbers.{uint_to_string, format_metric_line}

pub record MetricsMiddleware : Type 0 where
  pub total_requests : Table ℤ
  pub failed_requests : Table ℤ
  pub latency_sum : Table ℤ
  pub latency_count : Table ℤ

abbrev pub new_metrics_middleware : MetricsMiddleware
new_metrics_middleware = record {
  total_requests = [];
  failed_requests = [];
  latency_sum = [];
  latency_count = [];
}

-- `m[k]` of a map of numbers.
abbrev pub or_zero : Option ℤ → ℤ
or_zero none = pos 0
or_zero (some v) = v

-- `m[k] += v`.
unfoldable pub add_at : Text → ℤ → Table ℤ → Table ℤ
add_at k v m = insert k (wrap64 (or_zero (lookup k m) +ℤ v)) m

-- A request that has been handled: its method, its path, the pattern of its route (empty if there
-- is none), the status of its answer and the time that it took.
pub record Handled : Type 0 where
  pub method : Text
  pub path : Text
  pub full_path : Text
  pub status : ℤ
  pub latency : ℤ

abbrev pub route_path : Handled → Text
route_path h = if text_eq h.full_path [] then h.path else h.full_path

abbrev pub metric_key : Handled → Text
metric_key h = h.method ++ bytes "_" ++ route_path h

unfoldable pub record_request : Handled → MetricsMiddleware → MetricsMiddleware
unfolding add_at
record_request h m =
    let key = metric_key h in
    record {
      total_requests = add_at key (pos 1) m.total_requests;
      failed_requests =
          if leb_ℤ (pos 400) h.status
          then add_at key (pos 1) m.failed_requests
          else m.failed_requests;
      latency_sum = add_at key h.latency m.latency_sum;
      latency_count = add_at key (pos 1) m.latency_count;
    }

pub record PathMetrics : Type 0 where
  pub total_requests : ℤ
  pub failed_requests : ℤ
  pub avg_latency_ms : ℤ

-- Go's division of a duration by a positive number truncates towards zero.
abbrev quotient : ℤ → ℕ → ℤ
quotient (pos a) n = pos (a / n)
quotient (negsuc a) n = sub_ℕ 0 (suc a / n)

abbrev pub average : ℤ → ℤ → ℤ
average sum (pos n) = if ltb_ℤ (pos 0) (pos n) then quotient sum n else pos 0
average sum (negsuc n) = pos 0

unfoldable pub metrics_of : MetricsMiddleware → Table ℤ → Table PathMetrics
metrics_of m [] = []
metrics_of m ((key, count) ∷ rest) =
    (
      key,
      record {
        total_requests = count;
        failed_requests = or_zero (lookup key m.failed_requests);
        avg_latency_ms =
            milliseconds
              (average (or_zero (lookup key m.latency_sum)) (or_zero (lookup key m.latency_count)));
      },
    )
    ∷ metrics_of m rest

abbrev pub get_metrics : MetricsMiddleware → Table PathMetrics
get_metrics m = metrics_of m m.total_requests

unfoldable pub append : Option Text → Option Text → Option Text
append none b = none
append (some a) none = none
append (some a) (some b) = some (a ++ b)

unfoldable pub metric_lines : Table PathMetrics → Option Text
unfolding append
metric_lines [] = some []
metric_lines ((path, d) ∷ rest) =
    append (format_metric_line (bytes "koala_http_requests_total") path d.total_requests) (
      append (format_metric_line (bytes "koala_http_requests_failed") path d.failed_requests) (
        append (format_metric_line (bytes "koala_http_latency_ms") path d.avg_latency_ms)
          (metric_lines rest)))

-- The request identifier and the counter after it; the formatted time is an argument.
unfoldable pub generate_request_id : Text → ℕ → Option Text × ℕ
generate_request_id time counter =
    let id = suc counter % two64 in (append (some (time ++ bytes "-")) (uint_to_string id), id)

-- The heading, which is all of the page when the metrics are off, and its end.
abbrev pub metrics_heading : Text
metrics_heading =
    utf8 "# HELP koala_http_requests_total Koala HTTP请求总数\n"
    ++ bytes "# TYPE koala_http_requests_total counter\n"

abbrev pub metrics_footer : Text
metrics_footer =
    utf8 "\n# HELP koala_up Koala服务是否运行\n"
    ++ bytes "# TYPE koala_up gauge\n"
    ++ bytes "koala_up 1\n"

unfoldable pub build_prometheus_metrics : Option MetricsMiddleware → Option Text
unfolding metric_lines metrics_of
build_prometheus_metrics none = some (metrics_heading ++ bytes "koala_http_requests_total 0\n")
build_prometheus_metrics (some m) =
    append (some metrics_heading) (append (metric_lines (get_metrics m)) (some metrics_footer))
