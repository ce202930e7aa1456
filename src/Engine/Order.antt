-- ===== src/Engine/Order.antt =====
-- Rule.Matches and Rule.GenerateKey under another order of the conditions: Go iterates over a map
-- in an unspecified order.
use koala_v.Prelude.{◌≡◌, refl, ap, ◌∙◌, Text, Table, List, [], ◌∷◌, true, false, arith}
use mathlib.Core.List.{Permᴰ}
use koala_v.Matcher.{Matcher}
use koala_v.Matcher.Dict.{Dicts}
use koala_v.Engine.Message.{Request}
use koala_v.Engine.Matching.{
  Rule, condition, match_all, matches, text_le, insert_sorted, sort_strings, fields_of,
  generate_key,
}

match_all-perm :
    (dicts : Dicts) (ms : Table Matcher) (req : Request) {xs ys : Table Text}
    → Permᴰ xs ys
    → match_all dicts ms req xs ≡ match_all dicts ms req ys
unfolding match_all
match_all-perm dicts ms req Permᴰ.nil = refl
match_all-perm dicts ms req (Permᴰ.cons e p) =
    ground (arith, ap (condition dicts ms req) e, match_all-perm dicts ms req p)
match_all-perm dicts ms req (Permᴰ.swap e f) =
    ground (arith, ap (condition dicts ms req) e, ap (condition dicts ms req) f)
match_all-perm dicts ms req (Permᴰ.trans p q) =
    match_all-perm dicts ms req p ∙ match_all-perm dicts ms req q

text_le_total : (a b : Text) → text_le a b ≡ false → text_le b a ≡ true
unfolding text_le
text_le_total [] b h = ground arith
text_le_total (x ∷ xs) [] h = ground arith
text_le_total (x ∷ xs) (y ∷ ys) h = ground (arith, text_le_total xs ys)

text_le_antisymm : (a b : Text) → text_le a b ≡ true → text_le b a ≡ true → a ≡ b
unfolding text_le
text_le_antisymm [] [] h k = refl
text_le_antisymm [] (y ∷ ys) h k = ground arith
text_le_antisymm (x ∷ xs) [] h k = ground arith
text_le_antisymm (x ∷ xs) (y ∷ ys) h k = ground (arith, text_le_antisymm xs ys)

text_le_trans : (a b c : Text) → text_le a b ≡ true → text_le b c ≡ true → text_le a c ≡ true
unfolding text_le
text_le_trans [] b c h k = refl
text_le_trans (x ∷ xs) [] c h k = ground arith
text_le_trans (x ∷ xs) (y ∷ ys) [] h k = ground arith
text_le_trans (x ∷ xs) (y ∷ ys) (z ∷ zs) h k = ground (arith, text_le_trans xs ys zs)

insert_comm :
    (a b : Text) (l : List Text)
    → insert_sorted a (insert_sorted b l) ≡ insert_sorted b (insert_sorted a l)
unfolding insert_sorted
insert_comm a b [] = ground (arith, text_le_total a b, text_le_total b a, text_le_antisymm a b)
insert_comm a b (c ∷ l) = ground (
  arith,
  text_le_total a b,
  text_le_total b a,
  text_le_antisymm a b,
  text_le_trans a b c,
  text_le_trans b a c,
  text_le_total a c,
  text_le_total b c,
  text_le_trans a c b,
  text_le_trans b c a,
  insert_comm a b l,
)

sort-perm :
    {xs ys : Table Text} → Permᴰ xs ys → sort_strings (fields_of xs) ≡ sort_strings (fields_of ys)
unfolding sort_strings fields_of
sort-perm Permᴰ.nil = refl
sort-perm (Permᴰ.cons e p) = ground (arith, ap (λ (c : Text × Text). c.0) e, sort-perm p)
sort-perm (Permᴰ.swap {a = a} {b = b} {l = l} e f) = ground (
  arith,
  ap (λ (c : Text × Text). c.0) e,
  ap (λ (c : Text × Text). c.0) f,
  insert_comm a.0 b.0 (sort_strings (fields_of l)),
)
sort-perm (Permᴰ.trans p q) = sort-perm p ∙ sort-perm q

-- Rules that list the same conditions in another order match the same requests.
matches-perm :
    (dicts : Dicts) (req : Request) (r : Rule) (conditions : Table Text)
    → Permᴰ r.match conditions
    → matches dicts r req ≡ matches dicts (record r { match = conditions }) req
unfolding matches
matches-perm dicts req r conditions p = match_all-perm dicts r.matchers req p

-- Rules that list the same conditions in another order count a request under the same key.
pub generate_key-perm :
    (req : Request) (r : Rule) (conditions : Table Text)
    → Permᴰ r.match conditions
    → generate_key r req ≡ generate_key (record r { match = conditions }) req
unfolding generate_key
generate_key-perm req r conditions p = rw (sort-perm p) refl
