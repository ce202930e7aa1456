-- ===== src/Rules/Load.antt =====
-- internal/config/rules.go: LoadRules. The TOML decoder is an argument; a nil map is an empty one.
use koala_v.Prelude.{Text, none, some, ◌⊎◌, inl, inr}
use koala_v.Rules.{RulesConfig}
use koala_v.Rules.Validate.{RulesError, validate_rules}

-- The decoder's error, or that of the validation.
pub data LoadError (E : Type 0) : Type 0 where
  decode_failed : E → LoadError E
  invalid : RulesError → LoadError E

unfoldable pub load_rules :
    {E : Type 0} → (Text → E ⊎ RulesConfig) → Text → LoadError E ⊎ RulesConfig
unfolding validate_rules
load_rules decode path = elim (decode path) [
  | inl e ↦ inl (decode_failed e)
  | inr rules ↦ elim (validate_rules rules) [ some e ↦ inl (invalid e) | none ↦ inr rules ]
]
