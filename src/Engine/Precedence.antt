-- ===== src/Engine/Precedence.antt =====
-- Which rule decides a request, for Engine.Check and Engine.Browse together.
use koala_v.Prelude.{
  ℤ, List, [], ◌∷◌, ◌++◌, Bool, true, false, Option, none, some, ◌≡◌, refl, arith,
}
use koala_v.Matcher.Dict.{Dicts}
use koala_v.Engine.Message.{Request, new_allowed_response}
use koala_v.Engine.Matching.{Rule, RuleSet}
use koala_v.Engine.{
  Engine, Outcome, response_of, first_match, apply_rule, apply_phases, match_rules, browse, check,
}

first_match-append :
    (dicts : Dicts) (req : Request) (xs ys : List Rule)
    → first_match dicts req (xs ++ ys)
      ≡ elim (first_match dicts req xs) [ none ↦ first_match dicts req ys | some r ↦ some r ]
unfolding first_match
first_match-append dicts req [] ys = ground arith
first_match-append dicts req (x ∷ xs) ys = ground (arith, first_match-append dicts req xs ys)

abbrev joined : List (List Rule) → List Rule
joined [] = []
joined (rs ∷ rss) = rs ++ joined rss

-- The four rate limit lists as one.
abbrev pub rate_rules : RuleSet → List Rule
rate_rules rs = joined (rs.business ∷ rs.post ∷ rs.advanced ∷ rs.default_rules ∷ [])

module _ {S : Type 0} (e : Engine S) (dicts : Dicts) (now : ℤ) where
  -- What a rule set does to a request, by the first rule that matches in each group.
  abbrev pub decision : Option Rule → Option Rule → Option Rule → Request → Bool → S → Outcome S
  decision (some white) black limited req update_on_match s =
      (some (response_of true white), none, s)
  decision none (some black) limited req update_on_match s =
      (some (response_of false black), none, s)
  decision none none (some rule) req update_on_match s = apply_rule e now rule req update_on_match s
  decision none none none req update_on_match s = (some new_allowed_response, none, s)

  apply_phases-joined :
      (phases : List (List Rule)) (req : Request) (update_on_match : Bool) (s : S)
      → apply_phases e dicts now phases req update_on_match s
        ≡ decision none none (first_match dicts req (joined phases)) req update_on_match s
  unfolding apply_phases first_match
  apply_phases-joined [] req update_on_match s = refl
  apply_phases-joined (rs ∷ phases) req update_on_match s = ground (
    arith,
    first_match-append dicts req rs (joined phases),
    apply_phases-joined phases req update_on_match s,
  )

  -- The first whitelist rule that matches allows the request, whatever else matches; without one
  -- the first blacklist rule that matches denies it; without either the first rate rule that
  -- matches, in the order business, post, advanced, default, is applied, and it alone; and when
  -- none matches the request is allowed. This holds of Check and of Browse.
  pub match_rules-decision :
      (rs : RuleSet) (req : Request) (update_on_match : Bool) (s : S)
      → match_rules e dicts now rs req update_on_match s
        ≡ decision
            (first_match dicts req rs.whitelist)
            (first_match dicts req rs.blacklist)
            (first_match dicts req (rate_rules rs))
            req
            update_on_match
            s
  unfolding match_rules
  match_rules-decision rs req update_on_match s =
      let phases = rs.business ∷ rs.post ∷ rs.advanced ∷ rs.default_rules ∷ [] in
      ground (arith, apply_phases-joined phases req update_on_match s)

  -- When Browse denies a request or returns an error, Check does the same and leaves the same
  -- state: a counter is updated only for a request that is let through.
  pub check-browse :
      (req : Option Request) (s : S)
      → elim (browse e dicts now req s).0 [ some r ↦ r.allowed | none ↦ false ] ≡ false
      → check e dicts now req s ≡ browse e dicts now req s
  unfolding check browse match_rules apply_phases apply_rule
  check-browse none s h = ground arith
  check-browse (some req) s h = ground arith

  -- Check and Browse return the same response and the same error.
  check-response :
      (req : Option Request) (s : S)
      → ((check e dicts now req s).0 ≡ (browse e dicts now req s).0)
        × ((check e dicts now req s).1 ≡ (browse e dicts now req s).1)
  unfolding check browse match_rules apply_phases apply_rule
  check-response none s = ground arith
  check-response (some req) s = ground arith
