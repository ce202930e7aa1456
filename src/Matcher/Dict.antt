-- ===== src/Matcher/Dict.antt =====
-- internal/engine/matcher/dict.go: DictMatcher, a map from names to sets of values.
use koala_v.Prelude.{
  ◌==◌, Text, Table, lookup, insert, delete, List, [], ◌∷◌, Bool, true, false, Option, none, some,
  if◌then◌else◌,
}

-- `map[string]map[string]bool`.
abbrev pub Dicts : Type 0
Dicts = Table (Table Bool)

-- `dict[value]`, with false for a missing value.
abbrev pub flag : Option Bool → Bool
flag none = false
flag (some b) = b

abbrev pub member : Text → Option (Table Bool) → Bool
member value none = false
member value (some dict) = flag (lookup value dict)

unfoldable pub match : Dicts → Text → Text → Bool
match dicts [] value = false
match dicts (c ∷ []) value = false
match dicts (c ∷ d ∷ name) value =
    if c == b'@' then member value (lookup (d ∷ name) dicts) else false

unfoldable pub register_dict : Text → Table Bool → Dicts → Dicts
register_dict name values dicts = insert name values dicts

-- The loop that fills a dictionary from a slice.
unfoldable pub dict_of : List Text → Table Bool → Table Bool
dict_of [] dict = dict
dict_of (v ∷ values) dict = dict_of values (insert v true dict)

unfoldable pub register_dict_slice : Text → List Text → Dicts → Dicts
register_dict_slice name values dicts = insert name (dict_of values []) dicts

unfoldable pub unregister_dict : Text → Dicts → Dicts
unregister_dict name dicts = delete name dicts

unfoldable pub has_dict : Text → Dicts → Bool
has_dict name dicts = elim (lookup name dicts) [ none ↦ false | some d ↦ true ]
