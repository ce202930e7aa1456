-- ===== src/Api/Cors.antt =====
-- internal/api/middleware.go: CORSMiddlewareWithConfig.
use koala_v.Prelude.{
  ℤ, pos, Text, bytes, text_eq, Table, lookup, insert, lookup-insert, List, [], ◌∷◌, Bool, true,
  false, ◌||◌, ◌&&◌, not, Option, none, some, ◌≡◌, refl, ap, ◌∙◌, Bool-cases, inl, inr, arith,
  if◌then◌else◌,
}

-- What the handler decides from: whether every origin is allowed, and the map of origins.
pub record Origins : Type 0 where
  pub allow_all : Bool
  pub origin_map : Table Bool

-- The loop stops at the first "*".
unfoldable pub scan_origins : List Text → Origins → Origins
scan_origins [] o = o
scan_origins (origin ∷ rest) o =
    let next = scan_origins rest (record o { origin_map = insert origin true o.origin_map }) in
    if text_eq origin (bytes "*") then record o { allow_all = true } else next

unfoldable pub origins_of : List Text → Origins
unfolding scan_origins
origins_of [] = scan_origins [] (record { allow_all = true; origin_map = [] })
origins_of (o ∷ os) = scan_origins (o ∷ os) (record { allow_all = false; origin_map = [] })

-- What is sent before the next handler: the allowed origin, `Vary`, and whether the methods, the
-- headers and the age are set; and the status that ends the request, if it ends here.
pub record CorsAnswer : Type 0 where
  pub allow_origin : Option Text
  pub vary : Bool
  pub details : Bool
  pub aborts : Option ℤ

-- A missing key of the map is false.
abbrev is_listed : Option Bool → Bool
is_listed none = false
is_listed (some b) = b

unfoldable pub cors_answer : Origins → Text → Text → CorsAnswer
cors_answer o origin method =
    let options = text_eq method (bytes "OPTIONS") in
    if o.allow_all
    then record {
      allow_origin = some (bytes "*");
      vary = false;
      details = true;
      aborts = if options then some (pos 204) else none;
    }
    else if is_listed (lookup origin o.origin_map)
    then record {
      allow_origin = some origin;
      vary = true;
      details = true;
      aborts = if options then some (pos 204) else none;
    }
    else record {
      allow_origin = none;
      vary = false;
      details = false;
      aborts = if options then some (pos 403) else none;
    }

unfoldable pub cors_middleware_with_config : List Text → Text → Text → CorsAnswer
unfolding origins_of cors_answer
cors_middleware_with_config allow_origins = cors_answer (origins_of allow_origins)

-- Whether a list of texts has a text.
abbrev pub contains : Text → List Text → Bool
contains x [] = false
contains x (y ∷ ys) = text_eq y x || contains x ys

abbrev pub is_empty : List Text → Bool
is_empty [] = true
is_empty (x ∷ xs) = false

scan_origins-allow_all :
    (os : List Text) (o : Origins)
    → (scan_origins os o).allow_all ≡ (o.allow_all || contains (bytes "*") os)
unfolding scan_origins
scan_origins-allow_all [] o = ground arith
scan_origins-allow_all (x ∷ os) o =
    ground (arith, scan_origins-allow_all os (record o { origin_map = insert x true o.origin_map }))

scan_origins-listed :
    (os : List Text) (o : Origins) (origin : Text)
    → contains (bytes "*") os ≡ false
    → is_listed (lookup origin (scan_origins os o).origin_map)
      ≡ (contains origin os || is_listed (lookup origin o.origin_map))
unfolding scan_origins
scan_origins-listed [] o origin h = ground arith
scan_origins-listed (x ∷ os) o origin h = ground (
  arith,
  h,
  scan_origins-listed os (record o { origin_map = insert x true o.origin_map }) origin,
  lookup-insert x origin true o.origin_map,
)

-- What CORS promises: whether everyone is allowed, and whether the origin is listed, decide.
abbrev pub decided : Bool → Bool → Text → Text → CorsAnswer
decided everyone listed origin method =
    let ok = everyone || listed in
    record {
      allow_origin = if everyone then some (bytes "*") else if ok then some origin else none;
      vary = not everyone && ok;
      details = ok;
      aborts =
          if text_eq method (bytes "OPTIONS") then some (if ok then pos 204 else pos 403) else none;
    }

cors_answer-decided :
    (o : Origins) (origin method : Text)
    → cors_answer o origin method
      ≡ decided o.allow_all (is_listed (lookup origin o.origin_map)) origin method
unfolding cors_answer
cors_answer-decided o origin method = elim (Bool-cases (text_eq method (bytes "OPTIONS"))) [
  | inl e ↦ ground (arith, e)
  | inr e ↦ ground (arith, e)
]

decided_cong :
    (everyone listed listed' : Bool) (origin method : Text)
    → (everyone ≡ false → listed ≡ listed')
    → decided everyone listed origin method ≡ decided everyone listed' origin method
decided_cong true listed listed' origin method h = refl
decided_cong false listed listed' origin method h = ap (λ b. decided false b origin method) (h refl)

scanned :
    (os : List Text) (origin method : Text)
    → cors_answer (scan_origins os (record { allow_all = false; origin_map = [] })) origin method
      ≡ decided (contains (bytes "*") os) (contains origin os) origin method
unfolding lookup
scanned os origin method =
    let o : Origins = record { allow_all = false; origin_map = [] } in
    let o' = scan_origins os o in
    cors_answer-decided o' origin method
    ∙ ap (λ b. decided b (is_listed (lookup origin o'.origin_map)) origin method)
        (scan_origins-allow_all os o)
    ∙ decided_cong (contains (bytes "*") os) _ _ origin method
        (λ h. ground (arith, scan_origins-listed os o origin h))

-- The allowed origin is "*" if the list is empty or has "*", the request's own origin, with `Vary`,
-- if the list has it, and absent otherwise; the method OPTIONS ends the request, with status 204 if
-- an origin was allowed and 403 otherwise, and every other request goes on.
pub cors_decision :
    (allow_origins : List Text) (origin method : Text)
    → cors_middleware_with_config allow_origins origin method
      ≡ decided
          (is_empty allow_origins || contains (bytes "*") allow_origins)
          (contains origin allow_origins)
          origin
          method
unfolding cors_middleware_with_config origins_of scan_origins
cors_decision [] origin method =
    cors_answer-decided (record { allow_all = true; origin_map = [] }) origin method
cors_decision (x ∷ os) origin method = scanned (x ∷ os) origin method
