-- ===== src/Engine/Bridge.antt =====
-- internal/engine/dict_bridge.go: SyncDictsToMatcher, from the manager to the dictionary matcher.
use koala_v.Prelude.{
  ℕ, Text, text_eq, text_eq_iff, Table, lookup, lookup-insert, List, [], ◌∷◌, Bool, false, Option,
  none, some, ◌≡◌, refl, ◌∙◌, ap, arith, if◌then◌else◌, any, inl, inr, Option-cases,
}
use koala_v.Matcher.Members.{member-dict_of}
use koala_v.Matcher.Dict.{Dicts, flag, member, dict_of, match, register_dict}
use koala_v.Dict.{Dict, DictManager, list, contains}

-- The body of the loop over the names.
unfoldable pub sync_name : Table Dict → Text → Dicts → Dicts
sync_name dicts name matcher = elim (lookup name dicts) [
  | none ↦ matcher
  | some dict ↦ register_dict name (dict_of (list dict) []) matcher
]

unfoldable pub sync_names : Table Dict → List Text → Dicts → Dicts
unfolding sync_name
sync_names dicts [] matcher = matcher
sync_names dicts (name ∷ names) matcher = sync_names dicts names (sync_name dicts name matcher)

-- A nil manager changes nothing.
unfoldable pub sync_dicts_to_matcher : Option DictManager → Dicts → Dicts
unfolding sync_names
sync_dicts_to_matcher none matcher = matcher
sync_dicts_to_matcher (some m) matcher = sync_names m.dicts (list m.dicts) matcher

lookup_cong : (i j : Text) (dicts : Table Dict) → i ≡ j → lookup i dicts ≡ lookup j dicts
lookup_cong i j dicts e = ap (λ (k : Text). lookup k dicts) e

lookup_nil : (value : Text) → flag (lookup value []) ≡ false
unfolding lookup
lookup_nil value = refl

flag-list :
    (value : Text) (dict : Dict) → any (λ v. text_eq v value) (list dict) ≡ contains dict value
unfolding list contains lookup
flag-list value [] = refl
flag-list value ((e, u) ∷ dict) = ground (arith, flag-list value dict)

-- What a dictionary answers, or else what was answered before.
abbrev pub answer : Option Dict → Text → Bool → Bool
answer none value before = before
answer (some dict) value before = contains dict value

member-sync_name :
    (dicts : Table Dict) (name j value : Text) (matcher : Dicts)
    → member value (lookup j (sync_name dicts name matcher)) ≡ (
        if text_eq name j
        then answer (lookup j dicts) value (member value (lookup j matcher))
        else member value (lookup j matcher))
unfolding sync_name register_dict
member-sync_name dicts name j value matcher = elim (Option-cases (lookup name dicts)) [
  | inl n ↦ ground (arith, text_eq_iff name j, lookup_cong name j dicts)
  | inr (dict, f) ↦ ground (
    arith,
    text_eq_iff name j,
    lookup_cong name j dicts,
    lookup-insert name j (dict_of (list dict) []) matcher,
    member-dict_of value (list dict) [],
    flag-list value dict,
    lookup_nil value,
  )
]

member-sync_names :
    (dicts : Table Dict) (names : List Text) (j value : Text) (matcher : Dicts)
    → member value (lookup j (sync_names dicts names matcher)) ≡ (
        if any (λ n. text_eq n j) names
        then answer (lookup j dicts) value (member value (lookup j matcher))
        else member value (lookup j matcher))
unfolding sync_names
member-sync_names dicts [] j value matcher = refl
member-sync_names dicts (name ∷ names) j value matcher = ground (
  arith,
  member-sync_names dicts names j value (sync_name dicts name matcher),
  member-sync_name dicts name j value matcher,
)

any-list :
    (dicts : Table Dict) (j value : Text) (before : Bool)
    → (if any (λ n. text_eq n j) (list dicts) then answer (lookup j dicts) value before else before)
      ≡ answer (lookup j dicts) value before
unfolding list lookup
any-list [] j value before = refl
any-list ((name, dict) ∷ dicts) j value before = ground (arith, any-list dicts j value before)

-- After SyncDictsToMatcher the pattern "@name", for a name that is not empty, accepts exactly the
-- entries of the manager's dictionary of that name, and for a name that the manager does not have
-- what it accepted before.
pub match-sync_dicts_to_matcher :
    (m : DictManager) (c : ℕ) (cs : Text) (value : Text) (matcher : Dicts)
    → match (sync_dicts_to_matcher (some m) matcher) (b'@' ∷ c ∷ cs) value
      ≡ answer (lookup (c ∷ cs) m.dicts) value (match matcher (b'@' ∷ c ∷ cs) value)
unfolding sync_dicts_to_matcher match
match-sync_dicts_to_matcher m c cs value matcher =
    member-sync_names m.dicts (list m.dicts) (c ∷ cs) value matcher
    ∙ any-list m.dicts (c ∷ cs) value (member value (lookup (c ∷ cs) matcher))
