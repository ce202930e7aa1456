-- ===== src/Matcher/Members.antt =====
-- The matchers over lists of texts: "a,b,c", "a.b.c.d" with wildcards, and the dictionaries.
use koala_v.Prelude.{
  ℕ, Text, text_eq, Table, lookup, insert, lookup-insert, lookup-delete, split, cons_first,
  trim_space, contains_byte, any, All, List, [], ◌∷◌, ◌++◌, Bool, true, false, ◌&&◌, ◌||◌, ◌≡◌,
  refl, ◌∙◌, ap, arith, if◌then◌else◌,
}
use koala_v.Matcher.Dict.{Dicts, flag, match, register_dict_slice, dict_of, unregister_dict}
use koala_v.Matcher.Ip as Ip
use koala_v.Matcher.{match_multi}

-- `strings.Join` with a separator of one byte.
abbrev pub join : ℕ → List Text → Text
join c [] = []
join c (p ∷ []) = p
join c (p ∷ q ∷ ps) = p ++ c ∷ join c (q ∷ ps)

split-append :
    (p rest : Text) (c : ℕ) → contains_byte p c ≡ false → split (p ++ c ∷ rest) c ≡ p ∷ split rest c
unfolding split cons_first contains_byte
split-append [] rest c h = ground arith
split-append (x ∷ xs) rest c h = ground (arith, split-append xs rest c)

split_whole : (p : Text) (c : ℕ) → contains_byte p c ≡ false → split p c ≡ p ∷ []
unfolding split cons_first contains_byte
split_whole [] c h = refl
split_whole (x ∷ xs) c h = ground (arith, split_whole xs c)

-- Parts without the separator are found again.
split-join :
    (c : ℕ) (p : Text) (ps : List Text)
    → All (λ q. contains_byte q c ≡ false) (p ∷ ps)
    → split (join c (p ∷ ps)) c ≡ p ∷ ps
split-join c p [] (h, rest) = split_whole p c h
split-join c p (q ∷ ps) (h, rest) =
    split-append p (join c (q ∷ ps)) c h ∙ ap (◌∷◌ p) (split-join c q ps rest)

-- The MultiMatcher of parts joined by commas accepts a text exactly when it is one of the parts
-- without the white space around them, if no part has a comma.
match_multi-join :
    (p : Text) (ps : List Text) (value : Text)
    → All (λ q. contains_byte q b',' ≡ false) (p ∷ ps)
    → match_multi (join b',' (p ∷ ps)) value
      ≡ any (λ part. text_eq (trim_space part) value) (p ∷ ps)
unfolding match_multi
match_multi-join p ps value h =
    ap (any (λ part. text_eq (trim_space part) value)) (split-join b',' p ps h)

-- One octet against its pattern.
abbrev octet : Text → Text → Bool
octet p v = text_eq p (b'*' ∷ []) || text_eq p v

-- The IPMatcher of four parts accepts four octets exactly when each part is "*" or the octet, if
-- no part and no octet has a dot.
match-octets :
    (p₁ p₂ p₃ p₄ v₁ v₂ v₃ v₄ : Text)
    → All (λ q. contains_byte q b'.' ≡ false) (p₁ ∷ p₂ ∷ p₃ ∷ p₄ ∷ [])
    → All (λ q. contains_byte q b'.' ≡ false) (v₁ ∷ v₂ ∷ v₃ ∷ v₄ ∷ [])
    → Ip.match (join b'.' (p₁ ∷ p₂ ∷ p₃ ∷ p₄ ∷ [])) (join b'.' (v₁ ∷ v₂ ∷ v₃ ∷ v₄ ∷ []))
      ≡ (octet p₁ v₁ && (octet p₂ v₂ && (octet p₃ v₃ && octet p₄ v₄)))
unfolding Ip.match Ip.match_parts
match-octets p₁ p₂ p₃ p₄ v₁ v₂ v₃ v₄ h k =
    ground
      (arith, split-join b'.' p₁ (p₂ ∷ p₃ ∷ p₄ ∷ []) h, split-join b'.' v₁ (v₂ ∷ v₃ ∷ v₄ ∷ []) k)

pub member-dict_of :
    (value : Text) (values : List Text) (dict : Table Bool)
    → flag (lookup value (dict_of values dict))
      ≡ (any (λ v. text_eq v value) values || flag (lookup value dict))
unfolding dict_of
member-dict_of value [] dict = refl
member-dict_of value (v ∷ values) dict =
    ground
      (arith, member-dict_of value values (insert v true dict), lookup-insert v value true dict)

-- After RegisterDictSlice of a name that is not empty and values, "@name" accepts exactly those
-- values, and the answers for every other name are as before.
match-register_dict_slice :
    (name other : Text) (c : ℕ) (cs : Text) (values : List Text) (value : Text) (dicts : Dicts)
    → name ≡ c ∷ cs
    → match (register_dict_slice name values dicts) (b'@' ∷ other) value ≡ (
        if text_eq name other
        then any (λ v. text_eq v value) values
        else match dicts (b'@' ∷ other) value)
unfolding match register_dict_slice text_eq lookup
match-register_dict_slice name [] c cs values value dicts e = ground arith
match-register_dict_slice name (o ∷ os) c cs values value dicts e =
    ground
      (arith, lookup-insert name (o ∷ os) (dict_of values []) dicts, member-dict_of value values [])

-- After UnregisterDict "@name" accepts nothing, and the answers for every other name are as before.
match-unregister_dict :
    (name other value : Text) (dicts : Dicts)
    → match (unregister_dict name dicts) (b'@' ∷ other) value
      ≡ (if text_eq name other then false else match dicts (b'@' ∷ other) value)
unfolding match unregister_dict
match-unregister_dict name [] value dicts = ground arith
match-unregister_dict name (o ∷ os) value dicts = ground (arith, lookup-delete name (o ∷ os) dicts)
