-- ===== src/Api/Middleware.antt =====
-- internal/api/middleware.go: the middlewares around the handlers. `next` is the rest of the chain,
-- which `c.Next` runs; what follows it does not run when it panics.
use koala_v.Prelude.{
  ℤ, pos, negsuc, ◌+ℤ◌, leb_ℤ, Text, bytes, utf8, List, [], ◌∷◌, Bool, true, false, Option, none,
  some, if◌then◌else◌,
}
use koala_v.Logger.{Line, Globals}
use koala_v.Logger
use koala_v.Api.Handler.{failure}
use koala_v.Api.Metrics.{generate_request_id, record_request, Handled}
use koala_v.Api.Cors.{CorsAnswer, cors_middleware_with_config}
use koala_v.Api.Context.{
  Body, api, no_body, wrote, panicked, died, Context, set_header, Field, text, number, duration,
  runtime, World, Handling, Clock, with_line,
}

abbrev pub request_id_name : Text
request_id_name = bytes "X-Request-ID"

-- The body of the answer to a panic.
abbrev pub recovered_body : Body
recovered_body = api (failure (negsuc 499) (utf8 "服务器内部错误"))

-- The body as a text, empty if there is none.
abbrev body_text : Option Text → Text
body_text none = []
body_text (some b) = b

abbrev pub handled : Context → Clock → ℤ → Handled
handled c clock status = record {
  method = c.method;
  path = c.path;
  full_path = c.full_path;
  status = status;
  latency = clock.metered_latency;
}

abbrev pub with_origin : Option Text → Context → Context
with_origin none c = c
with_origin (some origin) c = record c {
  headers = set_header (bytes "Access-Control-Allow-Origin") origin c.headers;
}

abbrev pub with_vary : Bool → Context → Context
with_vary true c = record c { headers = set_header (bytes "Vary") (bytes "Origin") c.headers }
with_vary false c = c

abbrev pub with_details : Bool → Context → Context
with_details true c = record c {
  headers = set_header (bytes "Access-Control-Max-Age") (bytes "86400") (
      set_header (bytes "Access-Control-Allow-Headers")
        (bytes "Content-Type, Authorization, X-Request-ID")
        (set_header (bytes "Access-Control-Allow-Methods") (bytes "GET, POST, PUT, DELETE, OPTIONS")
          c.headers));
}
with_details false c = c

abbrev pub with_cors : CorsAnswer → Context → Context
with_cors a c = with_details a.details (with_vary a.vary (with_origin a.allow_origin c))

abbrev pub access_fields : Text → Context → Clock → ℤ → List Field
access_fields id c clock status =
    text (bytes "request_id")
    ∷ text id
    ∷ text (bytes "method")
    ∷ text c.method
    ∷ text (bytes "path")
    ∷ text c.path
    ∷ text (bytes "status")
    ∷ number status
    ∷ text (bytes "latency")
    ∷ duration clock.logged_latency
    ∷ text (bytes "client_ip")
    ∷ text c.client_ip
    ∷ []

-- No handler adds to `c.Errors`.
abbrev pub failure_fields : Text → Context → ℤ → List Field
failure_fields id c status =
    text (bytes "request_id")
    ∷ text id
    ∷ text (bytes "status")
    ∷ number status
    ∷ text (bytes "request_body")
    ∷ text (body_text c.body)
    ∷ text (bytes "errors")
    ∷ text []
    ∷ []

module _ {W : Type 0} (g : Globals W Field) where
  abbrev pub access_line : Text → Context → Clock → ℤ → Option (Line W Field)
  access_line id c clock status = Logger.info (utf8 "HTTP请求完成") (access_fields id c clock status) g

  abbrev pub failure_line : Text → Context → ℤ → Option (Line W Field)
  failure_line id c status = Logger.warn (utf8 "HTTP请求失败") (failure_fields id c status) g

  abbrev pub panic_line : Context → Option (Line W Field)
  panic_line c =
      Logger.error (utf8 "panic恢复")
        (text (bytes "error")
          ∷ runtime
          ∷ text (bytes "path")
          ∷ text c.path
          ∷ text (bytes "method")
          ∷ text c.method
          ∷ text (bytes "stack")
          ∷ runtime
          ∷ [])
        g

module _ {W S : Type 0} where
  unfoldable pub timeout_middleware : ℤ → Clock → Handling W S → Handling W S
  timeout_middleware timeout clock next c w =
      next (record c { deadline = some (clock.now +ℤ timeout) }) w

  -- MetricsMiddleware.Handler.
  unfoldable pub metrics_middleware : Clock → Handling W S → Handling W S
  metrics_middleware clock next c w =
      let (reply, c₁, w₁) = next c w in
      elim reply [
        | wrote status body ↦ (
          wrote status body,
          c₁,
          record w₁ { metrics = record_request (handled c clock status) w₁.metrics },
        )
        | panicked ↦ (panicked, c₁, w₁)
        | died ↦ (died, c₁, w₁)
      ]

  -- CORSMiddlewareWithConfig: the answer is decided before the next handler.
  unfoldable pub cors_middleware : List Text → Handling W S → Handling W S
  cors_middleware allow_origins next c w =
      let a = cors_middleware_with_config allow_origins c.origin c.method in
      let c₁ = with_cors a c in
      elim a.aborts [ some status ↦ (wrote status no_body, c₁, w) | none ↦ next c₁ w ]

  module _ (g : Globals W Field) where
    -- What follows `c.Next` in LoggingMiddleware.
    unfoldable pub log_request : Text → Context → Clock → ℤ → World W S → World W S
    log_request id c clock status w =
        let w₁ = with_line (access_line g id c clock status) w in
        if leb_ℤ (pos 400) status then with_line (failure_line g id c status) w₁ else w₁

    unfoldable pub log_around : Text → Clock → Handling W S → Handling W S
    unfolding log_request
    log_around id clock next c w =
        let (reply, c₁, w₁) =
          next
            (record c { request_id = some id; headers = set_header request_id_name id c.headers })
            w in
        elim reply [
          | wrote status body ↦ (wrote status body, c₁, log_request id c clock status w₁)
          | panicked ↦ (panicked, c₁, w₁)
          | died ↦ (died, c₁, w₁)
        ]

    -- The identifier of the request, or a new one.
    unfoldable pub logging_middleware : Clock → Handling W S → Handling W S
    unfolding log_around
    logging_middleware clock next c w = elim c.request_id_header [
      | b ∷ bs ↦ log_around (b ∷ bs) clock next c w
      | [] ↦
          let (id, counter) = generate_request_id clock.stamp w.request_id_counter in
          let w₁ = record w { request_id_counter = counter } in
          elim id [ none ↦ (panicked, c, w₁) | some t ↦ log_around t clock next c w₁ ]
    ]

    -- The headers that were set stay.
    unfoldable pub recovery_middleware : Handling W S → Handling W S
    recovery_middleware next c w =
        let (reply, c₁, w₁) = next c w in
        elim reply [
          | wrote status body ↦ (wrote status body, c₁, w₁)
          | panicked ↦ (wrote (pos 500) recovered_body, c₁, with_line (panic_line g c) w₁)
          | died ↦ (died, c₁, w₁)
        ]
