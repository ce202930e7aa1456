-- ===== src/Api/Router/Answers.antt =====
-- Every request is answered: the identifiers, the requests that CORS ends, and the status.
use koala_v.Prelude.{
  ap, sym, ℕ, suc, ◌%◌, two64, ℤ, pos, ltb_ℤ, Text, bytes, text_eq, Table, lookup, lookup-insert,
  lookup-delete, lookup-insert_self, List, [], ◌∷◌, ◌++◌, Bool, true, false, ◌||◌, Option, none,
  some, ◌≡◌, refl, ◌∙◌, arith, if◌then◌else◌, Bool-cases, inl, inr,
}
use koala_v.Logger.{Globals}
use koala_v.Api.Metrics.{append, generate_request_id}
use koala_v.Api.Numbers.{uint_to_string}
use koala_v.Api.Numbers.Printed.{parse_uint-uint_to_string}
use koala_v.Api.Cors.{CorsAnswer, cors_middleware_with_config, cors_decision, contains, is_empty}
use koala_v.Api.Context.{no_body, wrote, Context, set_header, Field, World, Handling, Clock}
use koala_v.Api.Middleware.{
  request_id_name, with_origin, with_vary, with_details, with_cors, cors_middleware, log_around,
  logging_middleware, recovery_middleware,
}
use koala_v.Api.Router.{RouterConfig, chain}
use koala_v.Api.Router.Expected.{
  with_cors-cors_headers, with_lines, expected_lines, log_request-expected_lines,
}
use koala_v.Api.Router.Accounts.{
  is_preflight, Named, with_request_id, shared_with, with_deadline, seen, logged-around, inner,
}

printed-Named :
    (clock : Clock) (n : ℕ) (stamp t : Text)
    → clock.stamp ≡ stamp
    → uint_to_string (suc n % two64) ≡ some t
    → (b : ℕ) × (bs : Text) × (n' : ℕ) × Named clock [] n (b ∷ bs) n'
unfolding generate_request_id append
printed-Named clock n [] t s e = (b'-', t, suc n % two64, ground (arith, s, e))
printed-Named clock n (b ∷ bs) t s e =
    (b, bs ++ bytes "-" ++ t, suc n % two64, ground (arith, s, e))

-- Every request has an identifier that is not empty.
pub named :
    (clock : Clock) (header : Text) (n : ℕ)
    → (b : ℕ) × (bs : Text) × (n' : ℕ) × Named clock header n (b ∷ bs) n'
named clock (b ∷ bs) n = (b, bs, n, (refl, refl))
named clock [] n =
    let (t, e, p) = parse_uint-uint_to_string (suc n % two64) (omega arith) in
    printed-Named clock n clock.stamp t refl e

lookup-set_header :
    (key k v : Text) (headers : Table Text)
    → text_eq k key ≡ false
    → lookup key (set_header k v headers) ≡ lookup key headers
unfolding set_header
lookup-set_header key k [] headers h = lookup-delete k key headers ∙ (rw h refl)
lookup-set_header key k (b ∷ bs) headers h = lookup-insert k key (b ∷ bs) headers ∙ (rw h refl)

lookup-set_header_self :
    (b : ℕ) (key bs : Text) (headers : Table Text)
    → lookup key (set_header key (b ∷ bs) headers) ≡ some (b ∷ bs)
unfolding set_header
lookup-set_header_self b key bs headers = lookup-insert_self key (b ∷ bs) headers

-- The header X-Request-ID of a context.
abbrev pub id_header : Context → Option Text
id_header c = lookup request_id_name c.headers

id_header-with_origin : (o : Option Text) (c : Context) → id_header (with_origin o c) ≡ id_header c
unfolding text_eq
id_header-with_origin none c = refl
id_header-with_origin (some origin) c =
    lookup-set_header request_id_name (bytes "Access-Control-Allow-Origin") origin c.headers refl

id_header-with_vary : (b : Bool) (c : Context) → id_header (with_vary b c) ≡ id_header c
unfolding text_eq
id_header-with_vary true c =
    lookup-set_header request_id_name (bytes "Vary") (bytes "Origin") c.headers refl
id_header-with_vary false c = refl

id_header-with_details : (b : Bool) (c : Context) → id_header (with_details b c) ≡ id_header c
unfolding text_eq
id_header-with_details true c =
    lookup-set_header request_id_name _ _ _ refl
    ∙ lookup-set_header request_id_name _ _ _ refl
    ∙ lookup-set_header request_id_name _ _ c.headers refl
id_header-with_details false c = refl

id_header-with_cors : (a : CorsAnswer) (c : Context) → id_header (with_cors a c) ≡ id_header c
id_header-with_cors a c =
    id_header-with_details a.details (with_vary a.vary (with_origin a.allow_origin c))
    ∙ id_header-with_vary a.vary (with_origin a.allow_origin c)
    ∙ id_header-with_origin a.allow_origin c

id_header-shared_with :
    (config : RouterConfig) (c : Context) → id_header (shared_with config c) ≡ id_header c
id_header-shared_with config c = elim (Bool-cases config.enable_cors) [
  | inl on ↦
      let a = cors_middleware_with_config config.cors_allow_origins c.origin c.method in
      rw on (ap id_header (sym (with_cors-cors_headers a c)) ∙ id_header-with_cors a c)
  | inr off ↦ rw off refl
]

id_header-with_deadline :
    (config : RouterConfig) (clock : Clock) (c : Context)
    → id_header (with_deadline config clock c) ≡ id_header c
id_header-with_deadline config clock c = elim (Bool-cases (ltb_ℤ (pos 0) config.request_timeout)) [
  | inl on ↦ rw on refl
  | inr off ↦ rw off refl
]

-- The identifier is among the headers after CORS, and when the handler runs.
pub id_header-shared :
    (config : RouterConfig) (b : ℕ) (bs : Text) (c : Context)
    → id_header (shared_with config (with_request_id (b ∷ bs) c)) ≡ some (b ∷ bs)
id_header-shared config b bs c =
    id_header-shared_with config (with_request_id (b ∷ bs) c)
    ∙ lookup-set_header_self b request_id_name bs c.headers

pub id_header-seen :
    (config : RouterConfig) (clock : Clock) (b : ℕ) (bs : Text) (c : Context)
    → id_header (seen config clock (b ∷ bs) c) ≡ some (b ∷ bs)
id_header-seen config clock b bs c =
    id_header-with_deadline config clock (shared_with config (with_request_id (b ∷ bs) c))
    ∙ id_header-shared config b bs c

-- Whether a list of allowed origins, which allows everyone when it is empty, lets an origin in.
abbrev pub is_allowed : List Text → Text → Bool
is_allowed origins origin =
    (is_empty origins || contains (bytes "*") origins) || contains origin origins

aborts-preflight :
    (os : List Text) (origin method : Text)
    → text_eq method (bytes "OPTIONS") ≡ true
    → (cors_middleware_with_config os origin method).aborts
      ≡ some (if is_allowed os origin then pos 204 else pos 403)
aborts-preflight os origin method h = rw (cors_decision os origin method, h) refl

module _ {W S : Type 0} (g : Globals W Field) (clock : Clock) (config : RouterConfig) where
  inner-preflight :
      (h : Handling W S) (c : Context) (w : World W S)
      → is_preflight config c ≡ true
      → inner g clock config h c w ≡ (
        wrote (if is_allowed config.cors_allow_origins c.origin then pos 204 else pos 403) no_body,
        shared_with config c,
        w,
      )
  unfolding cors_middleware
  inner-preflight h c w ends = elim (Bool-cases config.enable_cors) [
    | inl on ↦
        let aborted =
          aborts-preflight config.cors_allow_origins c.origin c.method (ground (arith, on, ends)) in
        rw (on, aborted, cors_middleware)
          (ap
            (λ x. (
              wrote (if is_allowed config.cors_allow_origins c.origin then pos 204 else pos 403)
                  no_body,
              x,
              w,
            ))
            (with_cors-cors_headers
              (cors_middleware_with_config config.cors_allow_origins c.origin c.method) c))
    | inr off ↦ absurd (ground (arith, off, ends))
  ]

  recovered-ended :
      (next around : Handling W S) (id : Text) (c c₁ : Context) (w w' : World W S) (status : ℤ)
      → around c w ≡ log_around g id clock next c w'
      → next (with_request_id id c) w' ≡ (wrote status no_body, c₁, w')
      → recovery_middleware g around c w
        ≡ (wrote status no_body, c₁, with_lines (expected_lines g id c clock status) w')
  unfolding recovery_middleware log_around
  recovered-ended next around id c c₁ w w' status a e =
      ground (arith, a, e, log_request-expected_lines g id c clock status w')

  -- A request with the method OPTIONS, when CORS is enabled, never reaches a handler: it is answered
  -- with status 204 if its origin is allowed and with 403 otherwise, it is logged, and it is counted
  -- in no metric.
  pub chain-preflight :
      (h : Handling W S) (c : Context) (w : World W S) (id : Text) (n' : ℕ)
      → is_preflight config c ≡ true
      → Named clock c.request_id_header w.request_id_counter id n'
      → let status : ℤ =
          if is_allowed config.cors_allow_origins c.origin then pos 204 else pos 403 in
        chain g clock config h c w ≡ (
          wrote status no_body,
          shared_with config (with_request_id id c),
          with_lines (expected_lines g id c clock status) (record w { request_id_counter = n' }),
        )
  unfolding chain
  chain-preflight h c w id n' ends named =
      let w' = record w { request_id_counter = n' } in
      recovered-ended (inner g clock config h) (logging_middleware g clock (inner g clock config h))
        id c (shared_with config (with_request_id id c)) w w' _
        (logged-around g clock config (inner g clock config h) c.request_id_header id n' c w refl
          named)
        (inner-preflight h (with_request_id id c) w' ends)
