-- ===== src/Engine/Matching.antt =====
-- internal/engine/rule.go: rules and rule sets, whether a request matches, and the storage key.
use koala_v.Prelude.{
  ◌==◌, ltb, ℤ, Text, bytes, Table, lookup, List, [], ◌∷◌, ◌++◌, Bool, true, false, ◌&&◌, ◌||◌,
  Option, none, some, if◌then◌else◌,
}
use koala_v.Matcher.{Matcher, parse}
use koala_v.Matcher
use koala_v.Matcher.Dict.{Dicts}
use koala_v.Algorithm.{Algorithm}
use koala_v.Algorithm.Limit.{LimitConfig}
use koala_v.Engine.Message.{Request, get_field}

pub data RuleType : Type 0 where
  access rate : RuleType

pub data RulePhase : Type 0 where
  whitelist blacklist business post advanced default_phase : RulePhase

pub record ResultConfig : Type 0 where
  pub code : ℤ
  pub message : Text
  pub auth_type : ℤ

pub record Rule : Type 0 where
  pub name : Text
  pub typ : RuleType
  pub phase : RulePhase
  pub match : Table Text
  pub matchers : Table Matcher
  pub limit : LimitConfig
  pub algorithm : Algorithm
  pub result : ResultConfig

pub record RuleSet : Type 0 where
  pub whitelist : List Rule
  pub blacklist : List Rule
  pub business : List Rule
  pub post : List Rule
  pub advanced : List Rule
  pub default_rules : List Rule

abbrev pub new_rule_set : RuleSet
new_rule_set = record {
  whitelist = [];
  blacklist = [];
  business = [];
  post = [];
  advanced = [];
  default_rules = [];
}

-- A precompiled matcher, or else the one that the pattern names.
abbrev pub matcher_for : Text → Option Matcher → Matcher
matcher_for pattern none = parse pattern
matcher_for pattern (some m) = m

-- The body of the loop over the conditions.
unfoldable pub condition : Dicts → Table Matcher → Request → Text × Text → Bool
condition dicts matchers req (field, pattern) =
    Matcher.match dicts (matcher_for pattern (lookup field matchers)) pattern (get_field req field)

unfoldable pub match_all : Dicts → Table Matcher → Request → Table Text → Bool
match_all dicts matchers req [] = true
match_all dicts matchers req (c ∷ cs) =
    let rest = match_all dicts matchers req cs in
    if condition dicts matchers req c then rest else false

unfoldable pub matches : Dicts → Rule → Request → Bool
matches dicts r req = match_all dicts r.matchers req r.match

-- Go's order of strings, byte by byte.
unfoldable pub text_le : Text → Text → Bool
text_le [] ys = true
text_le (a ∷ xs) [] = false
text_le (a ∷ xs) (b ∷ ys) = ltb a b || (a == b && text_le xs ys)

unfoldable pub insert_sorted : Text → List Text → List Text
insert_sorted x [] = x ∷ []
insert_sorted x (y ∷ ys) =
    let rest = insert_sorted x ys in if text_le x y then x ∷ y ∷ ys else y ∷ rest

-- `sort.Strings`.
unfoldable pub sort_strings : List Text → List Text
sort_strings [] = []
sort_strings (x ∷ xs) = insert_sorted x (sort_strings xs)

-- One turn of the loop appends ":field=value" to the key.
unfoldable pub append_fields : Request → List Text → Text → Text
append_fields req [] key = key
append_fields req (field ∷ fields) key =
    append_fields req fields (key ++ bytes ":" ++ field ++ bytes "=" ++ get_field req field)

-- The field names, in the order of the iteration.
unfoldable pub fields_of : Table Text → List Text
fields_of [] = []
fields_of ((field, pattern) ∷ cs) = field ∷ fields_of cs

unfoldable pub generate_key : Rule → Request → Text
generate_key r req = append_fields req (sort_strings (fields_of r.match)) (bytes "koala:" ++ r.name)
