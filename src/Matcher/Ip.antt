-- ===== src/Matcher/Ip.antt =====
-- internal/engine/matcher/ip.go: IPMatcher, for four parts with "*" as a wildcard.
use koala_v.Prelude.{
  ◌==◌, Text, split, text_eq, length, List, [], ◌∷◌, Bool, true, false, ◌||◌, not, if◌then◌else◌,
}

-- The loop over the octets.
unfoldable pub match_parts : List Text → List Text → Bool
match_parts (p ∷ ps) (v ∷ vs) =
    let rest = match_parts ps vs in
    if text_eq p (b'*' ∷ []) then rest else if text_eq p v then rest else false
match_parts _ _ = true

unfoldable pub match : Text → Text → Bool
match pattern value =
    let ps = split pattern b'.' in
    let vs = split value b'.' in
    if not (length ps == 4) || not (length vs == 4) then false else match_parts ps vs
