-- ===== src/Engine.antt =====
-- internal/engine/engine.go: Engine, which finds the first rule that matches and applies it.
pub mod Message
pub mod Matching
pub mod Build
pub mod Adapter
pub mod Admission
pub mod Bridge
pub mod Precedence
pub mod Order
use koala_v.Prelude.{
  ℤ, Text, List, [], ◌∷◌, Bool, true, false, Option, none, some, inl, inr, if◌then◌else◌,
}
use koala_v.Storage.{Storage, Call, Action, Error}
use koala_v.Algorithm
use koala_v.Matcher.Dict.{Dicts}
use koala_v.Engine.Message.{Request, Response, new_allowed_response}
use koala_v.Engine.Matching.{Rule, RuleSet, new_rule_set, matches, generate_key}
use koala_v.Engine.Build.{BuildError, build_rule_set}
use koala_v.Rules.{RulesConfig}
use koala_v.Dict.{DictManager}

-- The errors of Check and Browse: a nil request, and a limit that could not be read.
pub data EngineError : Type 0 where
  request_is_nil : EngineError
  check_rate_limit_failed : Error → EngineError

-- Nil pointers are `none`. No check reads the field `dicts`: the matchers read the dictionaries of the
-- default DictMatcher.
pub record Engine (S : Type 0) : Type 0 where
  pub rules : Option RuleSet
  pub storage : Option (Storage S)
  pub dicts : Option DictManager

-- The response that a rule's result makes.
abbrev pub response_of : Bool → Rule → Response
response_of allowed rule = record {
  allowed = allowed;
  code = rule.result.code;
  message = rule.result.message;
  rule_name = rule.name;
  auth_type = rule.result.auth_type;
}

-- `(*Response, error)`, and the state left.
abbrev pub Outcome : Type 0 → Type 0
Outcome S = Option Response × Option EngineError × S

module _ {S : Type 0} (e : Engine S) (now : ℤ) where
  unfoldable pub check_rate_limit : Rule → Request → Call S Bool
  check_rate_limit rule req s = elim e.storage [
    | none ↦ (false, none, s)
    | some store ↦ Algorithm.browse store rule.algorithm now (generate_key rule req) rule.limit s
  ]

  unfoldable pub update_counter : Rule → Request → Action S
  update_counter rule req s = elim e.storage [
    | none ↦ (none, s)
    | some store ↦ Algorithm.update store rule.algorithm now (generate_key rule req) rule.limit s
  ]

  -- A rule of phase 2 that matches. The error of an update is only logged.
  unfoldable pub apply_rule : Rule → Request → Bool → S → Outcome S
  unfolding check_rate_limit update_counter
  apply_rule rule req update_on_match s =
      let (hit, err, s₁) = check_rate_limit rule req s in
      elim err [
        | some e ↦ (none, some (check_rate_limit_failed e), s₁)
        | none ↦
            if hit
            then (some (response_of false rule), none, s₁)
            else if update_on_match
            then (some new_allowed_response, none, (update_counter rule req s₁).1)
            else (some new_allowed_response, none, s₁)
      ]

-- The first rule of a list that matches.
unfoldable pub first_match : Dicts → Request → List Rule → Option Rule
first_match dicts req [] = none
first_match dicts req (r ∷ rs) =
    let rest = first_match dicts req rs in if matches dicts r req then some r else rest

module _ {S : Type 0} (e : Engine S) (dicts : Dicts) (now : ℤ) where
  -- The loops of phase 2 over the four lists.
  unfoldable pub apply_phases : List (List Rule) → Request → Bool → S → Outcome S
  apply_phases [] req update_on_match s = (some new_allowed_response, none, s)
  apply_phases (rules ∷ phases) req update_on_match s =
      let rest = apply_phases phases req update_on_match s in
      elim (first_match dicts req rules) [
        | some rule ↦ apply_rule e now rule req update_on_match s
        | none ↦ rest
      ]

  unfoldable pub match_rules : RuleSet → Request → Bool → S → Outcome S
  unfolding apply_phases
  match_rules rs req update_on_match s = elim (first_match dicts req rs.whitelist) [
    | some rule ↦ (some (response_of true rule), none, s)
    | none ↦ elim (first_match dicts req rs.blacklist) [
      | some rule ↦ (some (response_of false rule), none, s)
      | none ↦
          apply_phases (rs.business ∷ rs.post ∷ rs.advanced ∷ rs.default_rules ∷ []) req
            update_on_match s
    ]
  ]

  -- Check and Browse differ in the flag alone.
  abbrev pub with_request : Bool → Option Request → S → Outcome S
  with_request update_on_match none s = (none, some request_is_nil, s)
  with_request update_on_match (some req) s = elim e.rules [
    | none ↦ (some new_allowed_response, none, s)
    | some rs ↦ match_rules rs req update_on_match s
  ]

  unfoldable pub check : Option Request → S → Outcome S
  unfolding match_rules
  check req s = with_request true req s

  unfoldable pub browse : Option Request → S → Outcome S
  unfolding match_rules
  browse req s = with_request false req s

-- `Option`, with its two constructors.
abbrev pub EngineOption : Type 0 → Type 0
EngineOption S = Engine S → Engine S

abbrev pub with_storage : {S : Type 0} → Storage S → EngineOption S
with_storage s e = record e { storage = some s }

abbrev pub with_dicts : {S : Type 0} → DictManager → EngineOption S
with_dicts dicts e = record e { dicts = some dicts }

unfoldable pub apply_options : {S : Type 0} → List (EngineOption S) → Engine S → Engine S
apply_options [] e = e
apply_options (opt ∷ opts) e = apply_options opts (opt e)

unfoldable pub new : {S : Type 0} → List (EngineOption S) → Engine S
unfolding apply_options
new opts =
    let e = apply_options opts (record { rules = none; storage = none; dicts = none }) in
    record e { rules = some new_rule_set }

-- A rule set that cannot be built leaves the rules in place.
unfoldable pub load_rules : {S : Type 0} → RulesConfig → Engine S → Option BuildError × Engine S
load_rules config e = elim (build_rule_set config) [
  | inr err ↦ (some err, e)
  | inl rs ↦ (none, record e { rules = some rs })
]

abbrev pub get_rule_set : {S : Type 0} → Engine S → Option RuleSet
get_rule_set e = e.rules

abbrev pub set_storage : {S : Type 0} → Option (Storage S) → Engine S → Engine S
set_storage storage e = record e { storage = storage }

abbrev pub set_dicts : {S : Type 0} → Option DictManager → Engine S → Engine S
set_dicts dicts e = record e { dicts = dicts }

abbrev pub get_storage : {S : Type 0} → Engine S → Option (Storage S)
get_storage e = e.storage

abbrev pub get_dicts : {S : Type 0} → Engine S → Option DictManager
get_dicts e = e.dicts
