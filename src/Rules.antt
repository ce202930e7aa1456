-- ===== src/Rules.antt =====
-- internal/config/rules.go: the rules as they are after the TOML decoder, with its maps as tables.
pub mod Validate
pub mod Time
pub mod Load
use koala_v.Prelude.{
  ◌==◌, ℤ, Text, bytes, text_eq, Table, lookup, List, [], ◌∷◌, Bool, true, false, Option,
  if◌then◌else◌,
}

pub record Meta : Type 0 where
  pub version : Text
  pub description : Text

pub record Result : Type 0 where
  pub code : ℤ
  pub message : Text
  pub auth_type : ℤ

pub record AccessRule : Type 0 where
  pub name : Text
  pub match : Table Text
  pub result : Text

pub record AccessRules : Type 0 where
  pub whitelist : List AccessRule
  pub blacklist : List AccessRule

pub record Limit : Type 0 where
  pub time : ℤ
  pub count : ℤ
  pub base : ℤ

pub record RateRule : Type 0 where
  pub name : Text
  pub typ : Text
  pub match : Table Text
  pub limit : Limit
  pub result : Text
  pub desc : Text

pub record RateRules : Type 0 where
  pub business : List RateRule
  pub post : List RateRule
  pub advanced : List RateRule
  pub default_rules : List RateRule

pub record RulesConfig : Type 0 where
  pub meta : Meta
  pub dicts : Table Text
  pub results : Table Result
  pub access : AccessRules
  pub rules : RateRules

abbrev pub get_result : RulesConfig → Text → Option Result
get_result config name = lookup name config.results

abbrev pub get_dict_path : RulesConfig → Text → Option Text
get_dict_path config name = lookup name config.dicts

-- `strings.HasPrefix(value, "@")`.
abbrev pub is_dict_reference : Text → Bool
is_dict_reference [] = false
is_dict_reference (c ∷ cs) = c == b'@'

abbrev pub get_dict_name : Text → Text
get_dict_name [] = []
get_dict_name (c ∷ cs) = if c == b'@' then cs else c ∷ cs

abbrev pub is_wildcard : Text → Bool
is_wildcard value = text_eq value (bytes "+")
