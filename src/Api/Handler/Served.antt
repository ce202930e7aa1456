-- ===== src/Api/Handler/Served.antt =====
-- The handlers on the engine of the program, through EngineAdapter.
use koala_v.Prelude.{
  refl, ap, sym, ◌∙◌, Option-cases, inl, inr, List, [], ◌∷◌, ℤ, pos, Option, none, some, Bool, true,
  false, ◌≡◌, ◌≢◌, arith,
}
use koala_v.Matcher.Dict.{Dicts}
use koala_v.Engine.Message.{Request, Response}
use koala_v.Engine.Matching.{Rule, RuleSet}
use koala_v.Engine.{
  Engine, EngineError, Outcome, first_match, apply_rule, apply_phases, match_rules,
}
use koala_v.Engine.Adapter.{adapter_browse, adapter_update}
use koala_v.Api.Types.{ApiRequest, EngineApi}
use koala_v.Api.Handler.{Answer, json, panicked, internal_error, copy_response, browse}

-- The conversion of EngineAdapter.
abbrev pub engine_request : ApiRequest → Request
engine_request req = record {
  act = req.act;
  uid = req.uid;
  ip = req.ip;
  did = req.did;
  ext = req.ext;
}

module _ {S : Type 0} (e : Engine S) (dicts : Dicts) (now : ℤ) where
  abbrev pub adapter : EngineApi S EngineError
  adapter = record {
    browse = λ req s. adapter_browse e dicts now req.update (engine_request req) s;
    update = λ req s. adapter_update e dicts now (engine_request req) s;
  }

  -- What the client is told of an outcome.
  abbrev pub told : Option Response → Option EngineError → Answer
  told response (some err) = internal_error
  told none none = panicked
  told (some r) none = json (pos 200) (copy_response r)

  abbrev pub is_panic : Outcome S → Bool
  is_panic (none, none, s) = true
  is_panic (some r, none, s) = false
  is_panic (r, some err, s) = false

  is_panic-apply_rule :
      (rule : Rule) (req : Request) (u : Bool) (s : S)
      → is_panic (apply_rule e now rule req u s) ≡ false
  unfolding apply_rule
  is_panic-apply_rule rule req u s = ground arith

  is_panic-apply_phases :
      (phases : List (List Rule)) (req : Request) (u : Bool) (s : S)
      → is_panic (apply_phases e dicts now phases req u s) ≡ false
  unfolding apply_phases
  is_panic-apply_phases [] req u s = refl
  is_panic-apply_phases (rules ∷ phases) req u s =
      elim (Option-cases (first_match dicts req rules)) [
        | inl none_matches ↦ ground (arith, none_matches, is_panic-apply_phases phases req u s)
        | inr (rule, matches_it) ↦ ground (arith, matches_it, is_panic-apply_rule rule req u s)
      ]

  pub is_panic-match_rules :
      (rs : RuleSet) (req : Request) (u : Bool) (s : S)
      → is_panic (match_rules e dicts now rs req u s) ≡ false
  unfolding match_rules
  is_panic-match_rules rs req u s =
      let rest : is_panic (
            apply_phases e dicts now (rs.business ∷ rs.post ∷ rs.advanced ∷ rs.default_rules ∷ [])
              req u s)
          ≡ false =
        is_panic-apply_phases (rs.business ∷ rs.post ∷ rs.advanced ∷ rs.default_rules ∷ []) req u
          s in
      ground (arith, rest)

  told-panicked : (o : Outcome S) → is_panic o ≡ false → told o.0 o.1 ≢ panicked
  told-panicked (r, some err, s) h eq = absurd (ground (arith, eq))
  told-panicked (some r, none, s) h eq = absurd (ground (arith, eq))
  told-panicked (none, none, s) h eq = absurd (ground (arith, h))

  browse-adapter :
      (rs : RuleSet) (req : ApiRequest) (s : S)
      → e.rules ≡ some rs
      → req.update ≡ false
      → browse adapter (some req) s ≡ (
        told
            (match_rules e dicts now rs (engine_request req) false s).0
            (match_rules e dicts now rs (engine_request req) false s).1,
        (match_rules e dicts now rs (engine_request req) false s).2,
      )
  unfolding browse adapter_browse koala_v.Engine.browse
  browse-adapter rs req s loaded off = ground (arith, loaded, off)

  -- With a rule set loaded and without the flag `update`, the handler Browse, on the program's
  -- engine, answers with status 200 and the response that the rules give, or with status 500 and
  -- code -2 if a limit could not be read; it leaves the state that the rules leave, and never panics.
  pub browse-match_rules :
      (rs : RuleSet) (req : ApiRequest) (s : S)
      → e.rules ≡ some rs
      → req.update ≡ false
      → let outcome = match_rules e dicts now rs (engine_request req) false s in
        (browse adapter (some req) s ≡ (told outcome.0 outcome.1, outcome.2))
        × ((browse adapter (some req) s).0 ≢ panicked)
  browse-match_rules rs req s loaded off =
      let same = browse-adapter rs req s loaded off in
      (
        same,
        λ p.
            told-panicked (match_rules e dicts now rs (engine_request req) false s)
              (is_panic-match_rules rs (engine_request req) false s) (sym (ap (λ x. x.0) same) ∙ p),
      )
