-- ===== src/Config/Check/Report.antt =====
-- internal/config/validate.go: the texts of the errors of a Validator.
use koala_v.Prelude.{Text, bytes, List, [], ◌∷◌, ◌++◌, Bool, true, false}
use koala_v.Config.Check.{ValidationError, Validator}

-- ValidationError.Error.
abbrev pub error_text : ValidationError → Text
error_text e = bytes "validation error for '" ++ e.field ++ bytes "': " ++ e.message

-- `strings.Join` of the texts, with "; ".
unfoldable join_rest : List ValidationError → Text
join_rest [] = []
join_rest (e ∷ es) = bytes "; " ++ error_text e ++ join_rest es

-- ValidationErrors.Error.
unfoldable pub errors_text : List ValidationError → Text
unfolding join_rest
errors_text [] = []
errors_text (e ∷ es) = error_text e ++ join_rest es

-- HasErrors, of a Validator and of its errors.
unfoldable pub has_errors : Validator → Bool
has_errors [] = false
has_errors (e ∷ es) = true
