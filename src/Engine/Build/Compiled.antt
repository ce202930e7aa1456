-- ===== src/Engine/Build/Compiled.antt =====
-- Precompiled matchers against patterns that are parsed for each request.
use koala_v.Prelude.{
  Text, text_eq, text_eq_iff, text_eq_refl, Table, lookup, insert, lookup-insert, [], ◌∷◌, Option,
  none, some, ◌≡◌, refl, ap, ◌∙◌, arith, if◌then◌else◌,
}
use koala_v.Matcher.{Matcher, parse}
use koala_v.Matcher.Dict.{Dicts}
use koala_v.Engine.Message.{Request}
use koala_v.Engine.Matching.{condition, match_all}
use koala_v.Engine.Build.{compile}

lookup_cong : (i j : Text) (cs : Table Text) → i ≡ j → lookup i cs ≡ lookup j cs
lookup_cong i j cs e = ap (λ (k : Text). lookup k cs) e

-- A field's pattern parsed, as the last entry of the list for the field says; an earlier table has
-- the rest.
compiled : Text → Table Text → Option Matcher → Option Matcher
compiled j [] before = before
compiled j ((field, pattern) ∷ cs) before =
    compiled j cs (if text_eq field j then some (parse pattern) else before)

lookup-compile :
    (j : Text) (cs : Table Text) (ms : Table Matcher)
    → lookup j (compile cs ms) ≡ compiled j cs (lookup j ms)
unfolding compile compiled
lookup-compile j [] ms = refl
lookup-compile j ((field, pattern) ∷ cs) ms =
    lookup-compile j cs (insert field (parse pattern) ms)
    ∙ ap (compiled j cs) (lookup-insert field j (parse pattern) ms)

-- No field stands twice, as in every Go map.
abbrev Distinct : Table Text → Type 0
Distinct [] = Unit
Distinct ((field, pattern) ∷ cs) = (lookup field cs ≡ none) × Distinct cs

parsed_or : Option Matcher → Option Text → Option Matcher
parsed_or before none = before
parsed_or before (some pattern) = some (parse pattern)

compiled-Distinct :
    (j : Text) (cs : Table Text) (before : Option Matcher)
    → Distinct cs
    → compiled j cs before ≡ parsed_or before (lookup j cs)
unfolding compiled parsed_or lookup
compiled-Distinct j [] before d = refl
compiled-Distinct j ((field, pattern) ∷ cs) before (fresh, d) = ground (
  arith,
  text_eq_iff field j,
  lookup_cong field j cs,
  compiled-Distinct j cs (if text_eq field j then some (parse pattern) else before) d,
)

-- Each condition of a list is the one that its field finds in a table.
abbrev Found : Table Text → Table Text → Type 0
Found cs [] = Unit
Found cs ((field, pattern) ∷ ds) = (lookup field cs ≡ some pattern) × Found cs ds

Found-cons :
    (field pattern : Text) (cs ds : Table Text)
    → lookup field cs ≡ none
    → Found cs ds
    → Found ((field, pattern) ∷ cs) ds
unfolding lookup
Found-cons field pattern cs [] fresh f = tt
Found-cons field pattern cs ((k, p) ∷ ds) fresh (found, f) = (
  ground (arith, text_eq_iff field k, lookup_cong field k cs),
  Found-cons field pattern cs ds fresh f,
)

Distinct-Found : (cs : Table Text) → Distinct cs → Found cs cs
unfolding lookup
Distinct-Found [] d = tt
Distinct-Found ((field, pattern) ∷ cs) (fresh, d) =
    (ground (arith, text_eq_refl field), Found-cons field pattern cs cs fresh (Distinct-Found cs d))

match_all-Found :
    (dicts : Dicts) (req : Request) (cs ds : Table Text)
    → Distinct cs
    → Found cs ds
    → match_all dicts (compile cs []) req ds ≡ match_all dicts [] req ds
unfolding match_all condition parsed_or lookup
match_all-Found dicts req cs [] d f = refl
match_all-Found dicts req cs ((k, p) ∷ ds) d (found, f) = ground (
  arith,
  lookup-compile k cs [],
  compiled-Distinct k cs none d,
  match_all-Found dicts req cs ds d f,
)

-- For conditions on distinct fields, the matchers that buildAccessRule and buildRateRule
-- precompile give the same answer as patterns parsed for each request.
pub match_all-compile :
    (dicts : Dicts) (req : Request) (cs : Table Text)
    → Distinct cs
    → match_all dicts (compile cs []) req cs ≡ match_all dicts [] req cs
match_all-compile dicts req cs d = match_all-Found dicts req cs cs d (Distinct-Found cs d)
