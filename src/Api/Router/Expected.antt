-- ===== src/Api/Router/Expected.antt =====
-- What the chain is expected to send, log and count for a request, written out from what the clients and
-- the logs of the API show.
use koala_v.Prelude.{
  ℤ, pos, negsuc, leb_ℤ, Text, bytes, utf8, Table, Bool, true, List, [], ◌∷◌, false, Option, none,
  some, ◌≡◌, refl, if◌then◌else◌, Bool-cases, inl, inr,
}
use koala_v.Logger.{Line, Globals, log}
use koala_v.Api.Context.{
  set_header, Body, api, Context, Field, text, number, duration, runtime, World, Clock, with_line,
}
use koala_v.Api.Cors.{CorsAnswer}
use koala_v.Api.Middleware.{log_request, with_origin, with_vary, with_details, with_cors}

-- The body of the answer to a panic.
abbrev pub expected_body : Body
expected_body = api (record {
  allowed = false;
  code = negsuc 499;
  message = utf8 "服务器内部错误";
  rule_name = [];
  auth_type = pos 0;
})

abbrev sent : Option Text → Text
sent none = []
sent (some body) = body

abbrev pub with_lines : {W S : Type 0} → List (Option (Line W Field)) → World W S → World W S
with_lines [] w = w
with_lines (line ∷ lines) w = with_lines lines (with_line line w)

-- The headers of CORS: the origin that is allowed, Vary, and those that describe what is allowed.
abbrev allowing : Option Text → Table Text → Table Text
allowing none headers = headers
allowing (some origin) headers = set_header (bytes "Access-Control-Allow-Origin") origin headers

abbrev headers_of : Option Text → Bool → Bool → Table Text → Table Text
headers_of origin vary details headers =
    let allowed = allowing origin headers in
    let varied = if vary then set_header (bytes "Vary") (bytes "Origin") allowed else allowed in
    if details
    then set_header (bytes "Access-Control-Max-Age") (bytes "86400") (
        set_header (bytes "Access-Control-Allow-Headers")
          (bytes "Content-Type, Authorization, X-Request-ID")
          (set_header (bytes "Access-Control-Allow-Methods")
            (bytes "GET, POST, PUT, DELETE, OPTIONS") varied))
    else varied

abbrev pub cors_headers : CorsAnswer → Table Text → Table Text
cors_headers a headers = headers_of a.allow_origin a.vary a.details headers

with_details-headers_of :
    (origin : Option Text) (vary details : Bool) (c : Context)
    → with_details details (with_vary vary (with_origin origin c))
      ≡ record c { headers = headers_of origin vary details c.headers }
with_details-headers_of none true true c = refl
with_details-headers_of none true false c = refl
with_details-headers_of none false true c = refl
with_details-headers_of none false false c = refl
with_details-headers_of (some o) true true c = refl
with_details-headers_of (some o) true false c = refl
with_details-headers_of (some o) false true c = refl
with_details-headers_of (some o) false false c = refl

pub with_cors-cors_headers :
    (a : CorsAnswer) (c : Context) → with_cors a c ≡ record c { headers = cors_headers a c.headers }
with_cors-cors_headers a c = with_details-headers_of a.allow_origin a.vary a.details c

module _ {W : Type 0} (g : Globals W Field) where
  -- At the level of Info: the identifier, the request, the status and its latency.
  abbrev finished : Text → Context → Clock → ℤ → Option (Line W Field)
  finished id c clock status =
      log (pos 0) (utf8 "HTTP请求完成")
        (text (bytes "request_id")
          ∷ text id
          ∷ text (bytes "method")
          ∷ text c.method
          ∷ text (bytes "path")
          ∷ text c.path
          ∷ text (bytes "status")
          ∷ number status
          ∷ text (bytes "latency")
          ∷ duration clock.logged_latency
          ∷ text (bytes "client_ip")
          ∷ text c.client_ip
          ∷ [])
        g.default_logger

  -- At the level of Warn: the identifier, the status and the body of the request.
  abbrev refused : Text → Context → ℤ → Option (Line W Field)
  refused id c status =
      log (pos 4) (utf8 "HTTP请求失败")
        (text (bytes "request_id")
          ∷ text id
          ∷ text (bytes "status")
          ∷ number status
          ∷ text (bytes "request_body")
          ∷ text (sent c.body)
          ∷ text (bytes "errors")
          ∷ text []
          ∷ [])
        g.default_logger

  -- At the level of Error: the panic, the request and the stack.
  abbrev pub crashed : Context → Option (Line W Field)
  crashed c =
      log (pos 8) (utf8 "panic恢复")
        (text (bytes "error")
          ∷ runtime
          ∷ text (bytes "path")
          ∷ text c.path
          ∷ text (bytes "method")
          ∷ text c.method
          ∷ text (bytes "stack")
          ∷ runtime
          ∷ [])
        g.default_logger

  -- The lines of an answer: a second one from status 400 on.
  abbrev pub expected_lines : Text → Context → Clock → ℤ → List (Option (Line W Field))
  expected_lines id c clock status =
      finished id c clock status ∷ (if leb_ℤ (pos 400) status then refused id c status ∷ [] else [])

  pub log_request-expected_lines :
      {S : Type 0} (id : Text) (c : Context) (clock : Clock) (status : ℤ) (w : World W S)
      → log_request g id c clock status w ≡ with_lines (expected_lines id c clock status) w
  unfolding log_request
  log_request-expected_lines id c clock status w = elim (Bool-cases (leb_ℤ (pos 400) status)) [
    | inl bad ↦ rw bad refl
    | inr fine ↦ rw fine refl
  ]
