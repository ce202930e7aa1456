-- ===== src/Dict.antt =====
-- internal/config/dict.go: dictionaries of texts, from the lines of a file, and their manager.
-- Files are a parameter: `read` gives the lines of a path, as bufio.Scanner does, or none on an
-- error.
use koala_v.Prelude.{
  ◌==◌, Text, bytes, Table, lookup, insert, delete, trim_space, has_prefix, length, ℕ, List, [],
  ◌∷◌, Bool, true, false, Option, none, some, if◌then◌else◌,
}

-- `map[string]struct{}`.
abbrev pub Dict : Type 0
Dict = Table Unit

-- The text before the first " #", if there is one.
unfoldable pub before_comment : Text → Option Text
before_comment [] = none
before_comment (c ∷ cs) =
    let rest = before_comment cs in
    if has_prefix (c ∷ cs) (bytes " #")
    then some []
    else elim rest [ none ↦ none | some t ↦ some (c ∷ t) ]

unfoldable pub parse_trimmed : Text → Text
unfolding before_comment
parse_trimmed [] = []
parse_trimmed (c ∷ cs) =
    if c == b'#'
    then []
    else elim (before_comment (c ∷ cs)) [ none ↦ c ∷ cs | some t ↦ trim_space t ]

unfoldable pub parse_dict_line : Text → Text
unfolding parse_trimmed
parse_dict_line line = parse_trimmed (trim_space line)

abbrev pub add_entry : Text → Dict → Dict
add_entry [] dict = dict
add_entry (c ∷ cs) dict = insert (c ∷ cs) tt dict

-- The loop over the lines.
unfoldable pub load_lines : List Text → Dict → Dict
unfolding parse_dict_line
load_lines [] dict = dict
load_lines (line ∷ lines) dict = load_lines lines (add_entry (parse_dict_line line) dict)

unfoldable pub contains : Dict → Text → Bool
contains dict entry = elim (lookup entry dict) [ none ↦ false | some u ↦ true ]

unfoldable pub add : Dict → Text → Dict
add dict entry = insert entry tt dict

unfoldable pub remove : Dict → Text → Dict
remove dict entry = delete entry dict

unfoldable pub list : {A : Type 0} → Table A → List Text
list [] = []
list ((entry, u) ∷ dict) = entry ∷ list dict

abbrev pub size : Dict → ℕ
size dict = length dict

abbrev pub clear : Dict → Dict
clear dict = []

unfoldable pub merge : Dict → Dict → Dict
merge dict [] = dict
merge dict ((entry, u) ∷ other) = merge (insert entry tt dict) other

pub record DictManager : Type 0 where
  pub dicts : Table Dict
  pub paths : Table Text

abbrev pub new_dict_manager : DictManager
new_dict_manager = record { dicts = []; paths = [] }

abbrev pub get : DictManager → Text → Option Dict
get m name = lookup name m.dicts

abbrev pub set : DictManager → Text → Dict → DictManager
set m name dict = record m { dicts = insert name dict m.dicts }

unfoldable pub manager_contains : DictManager → Text → Text → Bool
manager_contains m name entry = elim (lookup name m.dicts) [
  | none ↦ false
  | some dict ↦ contains dict entry
]

module _ (read : Text → Option (List Text)) where
  unfoldable pub load_dict : Text → Option Dict
  load_dict path = elim (read path) [ none ↦ none | some lines ↦ some (load_lines lines []) ]

  -- The loop over the paths, in the order of the iteration: what was loaded before a failure stays,
  -- and the failure's name is returned.
  unfoldable pub load_paths : Table Text → Table Dict → Option Text × Table Dict
  unfolding load_dict
  load_paths [] dicts = (none, dicts)
  load_paths ((name, path) ∷ paths) dicts = elim (load_dict path) [
    | none ↦ (some name, dicts)
    | some dict ↦ load_paths paths (insert name dict dicts)
  ]

  unfoldable pub load_dicts : Table Text → Option DictManager
  unfolding load_paths
  load_dicts paths =
      let (err, dicts) = load_paths paths [] in
      elim err [ some name ↦ none | none ↦ some (record { dicts = dicts; paths = paths }) ]

  unfoldable pub reload : DictManager → Option Text × DictManager
  unfolding load_paths
  reload m = let (err, dicts) = load_paths m.paths m.dicts in (err, record m { dicts = dicts })

  -- The error is that the name has no path, or that its file cannot be read.
  unfoldable pub reload_dict : Text → DictManager → Bool × DictManager
  unfolding load_dict
  reload_dict name m = elim (lookup name m.paths) [
    | none ↦ (true, m)
    | some path ↦ elim (load_dict path) [
      | none ↦ (true, m)
      | some dict ↦ (false, record m { dicts = insert name dict m.dicts })
    ]
  ]
