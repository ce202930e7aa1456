-- ===== src/Api/Router/Accounts.antt =====
-- What the chain of middlewares makes of a handler: what is answered, logged and counted.
use koala_v.Prelude.{
  ℕ, ℤ, pos, ltb_ℤ, ◌+ℤ◌, Text, bytes, text_eq, List, [], ◌∷◌, Bool, true, false, ◌&&◌, none, some,
  ◌≡◌, refl, ap, ◌∙◌, arith, if◌then◌else◌, Bool-cases, inl, inr,
}
use koala_v.Logger.{Globals}
use koala_v.Api.Metrics.{generate_request_id, record_request}
use koala_v.Api.Cors.{cors_middleware_with_config, cors_decision}
use koala_v.Api.Context.{
  Reply, wrote, panicked, died, Context, set_header, Field, World, Handling, Clock, with_line,
}
use koala_v.Api.Middleware.{
  timeout_middleware, handled, metrics_middleware, cors_middleware, log_around, logging_middleware,
  recovery_middleware,
}
use koala_v.Api.Router.{RouterConfig, chain}
use koala_v.Api.Router.Expected.{
  cors_headers, with_cors-cors_headers, expected_body, with_lines, crashed, expected_lines,
  log_request-expected_lines,
}

-- Whether CORS ends a request.
abbrev pub is_preflight : RouterConfig → Context → Bool
is_preflight config c = config.enable_cors && text_eq c.method (bytes "OPTIONS")

abbrev pub with_deadline : RouterConfig → Clock → Context → Context
with_deadline config clock c =
    if ltb_ℤ (pos 0) config.request_timeout
    then record c { deadline = some (clock.now +ℤ config.request_timeout) }
    else c

abbrev pub with_request_id : Text → Context → Context
with_request_id id c = record c {
  request_id = some id;
  headers = set_header (bytes "X-Request-ID") id c.headers;
}

abbrev pub shared_with : RouterConfig → Context → Context
shared_with config c =
    if config.enable_cors
    then record c {
      headers =
          cors_headers (cors_middleware_with_config config.cors_allow_origins c.origin c.method)
            c.headers;
    }
    else c

-- The context as the handler sees it.
abbrev pub seen : RouterConfig → Clock → Text → Context → Context
seen config clock id c = with_deadline config clock (shared_with config (with_request_id id c))

-- The identifier of a request, and the counter after it.
abbrev pub Named : Clock → Text → ℕ → Text → ℕ → Type 0
Named clock [] n id n' = generate_request_id clock.stamp n ≡ (some id, n')
Named clock (b ∷ bs) n id n' = (id ≡ b ∷ bs) × (n' ≡ n)

handled-seen :
    (config : RouterConfig) (id : Text) (c : Context) (clock : Clock) (status : ℤ)
    → handled (seen config clock id c) clock status ≡ handled c clock status
handled-seen config id c clock status = ground arith

aborts-options :
    (os : List Text) (origin method : Text)
    → text_eq method (bytes "OPTIONS") ≡ false
    → (cors_middleware_with_config os origin method).aborts ≡ none
aborts-options os origin method h = rw (cors_decision os origin method, h) refl

if-apply :
    {W S : Type 0} (b : Bool) (f h : Handling W S) (c : Context) (w : World W S)
    → (if b then f else h) c w ≡ (if b then f c w else h c w)
if-apply true f h c w = refl
if-apply false f h c w = refl

module _ {W S : Type 0} (g : Globals W Field) (clock : Clock) (config : RouterConfig) where
  abbrev pub counted : Context → ℤ → World W S → World W S
  counted c status w =
      if config.enable_metrics
      then record w { metrics = record_request (handled c clock status) w.metrics }
      else w

  -- What is made of the outcome of a handler, for the request of a context.
  abbrev pub account : Text → Context → Reply × Context × World W S → Reply × Context × World W S
  account id c (wrote status body, c₁, w) =
      (wrote status body, c₁, with_lines (expected_lines g id c clock status) (counted c status w))
  account id c (panicked, c₁, w) = (wrote (pos 500) expected_body, c₁, with_line (crashed g c) w)
  account id c (died, c₁, w) = (died, c₁, w)

  abbrev metered : Context → Reply × Context × World W S → Reply × Context × World W S
  metered c (wrote status body, c₁, w) = (wrote status body, c₁, counted c status w)
  metered c (panicked, c₁, w) = (panicked, c₁, w)
  metered c (died, c₁, w) = (died, c₁, w)

  metrics-metered :
      (h : Handling W S) (c : Context) (w : World W S) (o : Reply × Context × World W S)
      → h c w ≡ o
      → (if config.enable_metrics then metrics_middleware clock h else h) c w ≡ metered c o
  unfolding metrics_middleware
  metrics-metered h c w (wrote status body, c₁, w₁) e =
      if-apply config.enable_metrics (metrics_middleware clock h) h c w ∙ ground (arith, e)
  metrics-metered h c w (panicked, c₁, w₁) e =
      if-apply config.enable_metrics (metrics_middleware clock h) h c w ∙ ground (arith, e)
  metrics-metered h c w (died, c₁, w₁) e =
      if-apply config.enable_metrics (metrics_middleware clock h) h c w ∙ ground (arith, e)

  -- The deadline changes only the context that the next handler sees.
  timed :
      (h : Handling W S) (c : Context) (w : World W S)
      → (if ltb_ℤ (pos 0) config.request_timeout
            then timeout_middleware config.request_timeout clock h
            else h)
          c w
        ≡ h (with_deadline config clock c) w
  unfolding timeout_middleware
  timed h c w = elim (Bool-cases (ltb_ℤ (pos 0) config.request_timeout)) [
    | inl on ↦ rw on refl
    | inr off ↦ rw off refl
  ]

  shared :
      (h : Handling W S) (c : Context) (w : World W S)
      → is_preflight config c ≡ false
      → (if config.enable_cors then cors_middleware config.cors_allow_origins h else h) c w
        ≡ h (shared_with config c) w
  unfolding cors_middleware
  shared h c w passes = elim (Bool-cases config.enable_cors) [
    | inl on ↦
        let goes_on =
          aborts-options config.cors_allow_origins c.origin c.method (ground (arith, on, passes)) in
        rw (on, goes_on, cors_middleware)
          (ap (λ x. h x w)
            (with_cors-cors_headers
              (cors_middleware_with_config config.cors_allow_origins c.origin c.method) c))
    | inr off ↦ rw off refl
  ]

  -- All that stands inside the logging.
  abbrev pub inner : Handling W S → Handling W S
  inner h =
      let metered = if config.enable_metrics then metrics_middleware clock h else h in
      let timed =
        if ltb_ℤ (pos 0) config.request_timeout
        then timeout_middleware config.request_timeout clock metered
        else metered in
      if config.enable_cors then cors_middleware config.cors_allow_origins timed else timed

  metered-seen :
      (id : Text) (c : Context) (o : Reply × Context × World W S)
      → metered (seen config clock id c) o ≡ metered c o
  metered-seen id c (wrote status body, c₁, w) =
      ap
        (λ x. (
          wrote status body,
          c₁,
          if config.enable_metrics then record w { metrics = record_request x w.metrics } else w,
        ))
        (handled-seen config id c clock status)
  metered-seen id c (panicked, c₁, w) = refl
  metered-seen id c (died, c₁, w) = refl

  inner-metered :
      (h : Handling W S) (id : Text) (c : Context) (w : World W S) (o : Reply × Context × World W S)
      → is_preflight config c ≡ false
      → h (seen config clock id c) w ≡ o
      → inner h (with_request_id id c) w ≡ metered c o
  inner-metered h id c w o passes e =
      shared _ (with_request_id id c) w passes
      ∙ timed _ (shared_with config (with_request_id id c)) w
      ∙ metrics-metered h (seen config clock id c) w o e
      ∙ metered-seen id c o

  recovered-account :
      (next around : Handling W S) (id : Text) (c : Context) (w w' : World W S)
      (o : Reply × Context × World W S)
      → around c w ≡ log_around g id clock next c w'
      → next (with_request_id id c) w' ≡ metered c o
      → recovery_middleware g around c w ≡ account id c o
  unfolding recovery_middleware log_around
  recovered-account next around id c w w' (wrote status body, c₁, w₁) a e =
      ground (arith, a, e, log_request-expected_lines g id c clock status (counted c status w₁))
  recovered-account next around id c w w' (panicked, c₁, w₁) a e = ground (arith, a, e)
  recovered-account next around id c w w' (died, c₁, w₁) a e = ground (arith, a, e)

  pub logged-around :
      (next : Handling W S) (header id : Text) (n' : ℕ) (c : Context) (w : World W S)
      → c.request_id_header ≡ header
      → Named clock header w.request_id_counter id n'
      → logging_middleware g clock next c w
        ≡ log_around g id clock next c (record w { request_id_counter = n' })
  unfolding logging_middleware
  logged-around next [] id n' c w e named = ground (arith, e, named)
  logged-around next (b ∷ bs) id n' c w e named = ground (arith, e, named)

  -- A request that CORS does not end gets the answer of its handler, which sees the request with its
  -- identifier, the headers of CORS and the deadline; it is logged, with a second line from status
  -- 400 on, and counted. When the handler panics, the answer has status 500 and code -500, and the
  -- panic is the only thing that is logged: the request is not counted.
  pub chain-account :
      (h : Handling W S) (c : Context) (w : World W S) (id : Text) (n' : ℕ)
      → is_preflight config c ≡ false
      → Named clock c.request_id_header w.request_id_counter id n'
      → chain g clock config h c w
        ≡ account id c (h (seen config clock id c) (record w { request_id_counter = n' }))
  unfolding chain
  chain-account h c w id n' passes named =
      let w' = record w { request_id_counter = n' } in
      recovered-account (inner h) (logging_middleware g clock (inner h)) id c w w' _
        (logged-around (inner h) c.request_id_header id n' c w refl named)
        (inner-metered h id c w' _ passes refl)
