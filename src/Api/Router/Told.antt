-- ===== src/Api/Router/Told.antt =====
-- A request for browse through the chain of middlewares, on the program's engine.
use koala_v.Prelude.{ℕ, ℤ, Text, false, some, ◌≡◌, ap, ◌∙◌, arith}
use koala_v.Logger.{Globals}
use koala_v.Matcher.Dict.{Dicts}
use koala_v.Engine.{Engine, match_rules}
use koala_v.Engine.Matching.{RuleSet}
use koala_v.Api.Types.{ApiRequest}
use koala_v.Api.Handler
use koala_v.Api.Handler.Served.{adapter, engine_request, told, browse-match_rules}
use koala_v.Api.Context.{Reply, Context, Field, World, Clock}
use koala_v.Api.Router.{
  RouterConfig, Route, browse_endpoint, matched, Binding, reply_of, answered, run_endpoint, serve,
}
use koala_v.Api.Router.Accounts.{is_preflight, Named, seen, account, chain-account}

body_seen :
    (config : RouterConfig) (clock : Clock) (id : Text) (c : Context)
    → (seen config clock id c).body ≡ c.body
body_seen config clock id c = ground arith

module _ {W S : Type 0} (e : Engine S) (dicts : Dicts) (now : ℤ) (binding : Binding)
    (g : Globals W Field) (clock : Clock) (config : RouterConfig) where
  -- What the rules answer to a request, as the handler writes it, and the world after it.
  abbrev pub told_by : RuleSet → ApiRequest → Context → World W S → Reply × Context × World W S
  told_by rs req c w =
      let outcome = match_rules e dicts now rs (engine_request req) false w.state in
      (reply_of (told e dicts now outcome.0 outcome.1), c, record w { state = outcome.2 })

  browse-told_by :
      (rs : RuleSet) (req : ApiRequest) (c : Context) (w : World W S)
      → e.rules ≡ some rs
      → binding.request c.body ≡ some req
      → req.update ≡ false
      → run_endpoint (adapter e dicts now) binding config.enable_metrics clock browse_endpoint c w
        ≡ told_by rs req c w
  unfolding run_endpoint
  browse-told_by rs req c w loaded bound off =
      ap
        (λ r.
          answered (adapter e dicts now) binding (Handler.browse (adapter e dicts now) r w.state) c
            w)
        bound
      ∙ ap (λ o. answered (adapter e dicts now) binding o c w)
          (browse-match_rules e dicts now rs req w.state loaded off).0

  -- With a rule set loaded: a request for browse, whose body gin decodes, without the flag `update`,
  -- gets the answer that the rules give, is logged and counted, and leaves the state that the rules
  -- leave.
  pub serve-told_by :
      (rs : RuleSet) (r : Route) (req : ApiRequest) (c : Context) (w : World W S) (id : Text)
      (n' : ℕ)
      → e.rules ≡ some rs
      → r.endpoint ≡ browse_endpoint
      → binding.request c.body ≡ some req
      → req.update ≡ false
      → is_preflight config c ≡ false
      → Named clock c.request_id_header w.request_id_counter id n'
      → let c' = record c { full_path = r.pattern } in
        serve (adapter e dicts now) binding g clock (some config) (matched r) c w
        ≡ account g clock config id c'
            (told_by rs req (seen config clock id c') (record w { request_id_counter = n' }))
  unfolding serve
  serve-told_by rs r req c w id n' loaded end bound off passes name =
      let c' = record c { full_path = r.pattern } in
      let w' = record w { request_id_counter = n' } in
      chain-account g clock config _ c' w id n' passes name
      ∙ ap
          (λ x. account g clock config id c' (
            run_endpoint (adapter e dicts now) binding config.enable_metrics clock x
              (seen config clock id c') w'))
          end
      ∙ ap (account g clock config id c') (
          browse-told_by rs req (seen config clock id c') w' loaded
            (ap binding.request (body_seen config clock id c') ∙ bound) off)
