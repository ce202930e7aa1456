-- ===== src/Api/Router/Alive.antt =====
-- Every request is answered: neither a panic nor the end of the process comes out of NewRouter.
use mathlib.Core.Path.{subst}
use koala_v.Prelude.{
  ℕ, ℤ, pos, negsuc, utf8, Text, List, [], ◌∷◌, Bool, true, false, Option, none, some, ◌≡◌, refl,
  sym, ap, ◌∙◌, arith, Bool-cases, Option-cases, inl, inr,
}
use koala_v.Logger.{Globals}
use koala_v.Matcher.Dict.{Dicts}
use koala_v.Engine.{Engine, Outcome, browse, match_rules}
use koala_v.Engine.Adapter.{adapter_browse-browse}
use koala_v.Engine.Message.{Request, Response}
use koala_v.Api.Types.{ApiRequest, BatchItem, BatchResult, EngineApi}
use koala_v.Api.Handler.Batch.{
  Slot, waiting, done, crashed, batch, start_items, run_item, run_slots, request_of, result_of,
  failed_result,
}
use koala_v.Api.Handler.Served.{adapter, engine_request, is_panic, is_panic-match_rules}
use koala_v.Api.Middleware.{recovered_body}
use koala_v.Api.Context.{
  Body, no_body, Reply, wrote, panicked, died, Context, Field, World, Handling, Clock,
}
use koala_v.Api.Router.{
  RouterConfig, Endpoint, health_endpoint, ready_endpoint, metrics_endpoint, browse_endpoint,
  update_endpoint, batch_endpoint, Binding, results_of, batch_handler, run_endpoint, chain, Found,
  matched, missing, redirected, serve, config_or_default, not_found,
}
use koala_v.Api.Router.Accounts.{is_preflight, Named, seen, account, chain-account}
use koala_v.Api.Router.Answers.{named, id_header, id_header-seen, id_header-shared, chain-preflight}

-- The process goes on.
abbrev lives : Reply → Bool
lives (wrote status body) = true
lives panicked = true
lives died = false

-- Whether gin redirects a request.
abbrev is_redirect : Found → Bool
is_redirect (matched r) = false
is_redirect missing = false
is_redirect (redirected status) = true

-- Neither a response nor an error: the handlers panic then.
abbrev pub is_nil : {S Err : Type 0} → Option Response × Option Err × S → Bool
is_nil (none, none, s) = true
is_nil (some r, none, s) = false
is_nil (r, some e, s) = false

abbrev no_crash : List Slot → Bool
no_crash [] = true
no_crash (waiting item ∷ slots) = no_crash slots
no_crash (done result ∷ slots) = no_crash slots
no_crash (crashed ∷ slots) = false

no_crash-start_items : (items : List BatchItem) → no_crash (start_items items) ≡ true
unfolding start_items
no_crash-start_items [] = refl
no_crash-start_items (item ∷ items) = ground (arith, no_crash-start_items items)

module _ {S Err : Type 0} (engine : EngineApi S Err)
    (answers : (req : ApiRequest) (s : S) → is_nil (engine.browse req s) ≡ false) where
  outcome-done :
      (item : BatchItem) (s : S) (o : Option Response × Option Err × S)
      → engine.browse (request_of item) s ≡ o
      → is_nil o ≡ false
      → (r : BatchResult) × ((run_item engine item s).0 ≡ done r)
  unfolding run_item
  outcome-done item s (response, some e, s₁) b h =
      (failed_result item (negsuc 1) (utf8 "服务器内部错误"), ground (arith, b))
  outcome-done item s (some r, none, s₁) b h = (result_of item r, ground (arith, b))
  outcome-done item s (none, none, s₁) b h = absurd (ground (arith, h))

  run_item-done :
      (item : BatchItem) (s : S) → (r : BatchResult) × ((run_item engine item s).0 ≡ done r)
  run_item-done item s = outcome-done item s _ refl (answers (request_of item) s)

  results_of-run_slots :
      (slots : List Slot) (s : S)
      → no_crash slots ≡ true
      → (results : List BatchResult) × (results_of (run_slots engine slots s).0 ≡ some results)
  unfolding run_slots results_of
  results_of-run_slots [] s h = ([], refl)
  results_of-run_slots (waiting item ∷ slots) s h =
      let (r, ran) = run_item-done item s in
      let (rest, e) = results_of-run_slots slots (run_item engine item s).1 h in
      (r ∷ rest, ground (arith, ran, e))
  results_of-run_slots (done result ∷ slots) s h =
      let (rest, e) = results_of-run_slots slots s h in (result ∷ rest, ground (arith, e))
  results_of-run_slots (crashed ∷ slots) s h = absurd (ground (arith, h))

  batch_handler-lives :
      (items : Option (List BatchItem)) (s : S) → lives (batch_handler engine items s).0 ≡ true
  unfolding batch_handler batch
  batch_handler-lives none s = refl
  batch_handler-lives (some items) s =
      let (results, e) = results_of-run_slots (start_items items) s (no_crash-start_items items) in
      ground (arith, e)

  module _ {W : Type 0} (binding : Binding) (metrics : Bool) (clock : Clock) where
    -- A handler leaves the context as it is, and the process alive.
    abbrev Lives : Context → Reply × Context × World W S → Type 0
    Lives c o = (lives o.0 ≡ true) × (o.1 ≡ c)

    run_endpoint-Lives :
        (endpoint : Endpoint) (c : Context) (w : World W S)
        → Lives c (run_endpoint engine binding metrics clock endpoint c w)
    unfolding run_endpoint
    run_endpoint-Lives health_endpoint c w = (refl, refl)
    run_endpoint-Lives ready_endpoint c w = (refl, refl)
    run_endpoint-Lives metrics_endpoint c w = (ground arith, refl)
    run_endpoint-Lives browse_endpoint c w = (ground arith, refl)
    run_endpoint-Lives update_endpoint c w = (ground arith, refl)
    run_endpoint-Lives batch_endpoint c w =
        (batch_handler-lives (binding.items c.body) w.state, refl)

module _ {W S : Type 0} (g : Globals W Field) (clock : Clock) where
  -- An answer with a status, whose header X-Request-ID is the identifier of the request.
  abbrev pub Answered : Context → World W S → Reply × Context × World W S → Type 0
  Answered c w o =
      (status : ℤ) × (body : Body) × (id : Text) × (n' : ℕ) × (o.0 ≡ wrote status body)
      × (id_header o.1 ≡ some id)
      × Named clock c.request_id_header w.request_id_counter id n'

  account-Answered :
      (config : RouterConfig) (id : Text) (n' : ℕ) (c c' : Context) (w : World W S)
      (o : Reply × Context × World W S)
      → (lives o.0 ≡ true) × (o.1 ≡ c')
      → id_header c' ≡ some id
      → Named clock c.request_id_header w.request_id_counter id n'
      → Answered c w (account g clock config id c o)
  account-Answered config id n' c c' w (wrote status body, c₁, w₁) l h name =
      (status, body, id, n', refl, ap id_header l.1 ∙ h, name)
  account-Answered config id n' c c' w (panicked, c₁, w₁) l h name =
      (pos 500, recovered_body, id, n', refl, ap id_header l.1 ∙ h, name)
  account-Answered config id n' c c' w (died, c₁, w₁) l h name = absurd (ground (arith, l.0))

  chain-Answered :
      (config : RouterConfig) (h : Handling W S) (c : Context) (w : World W S)
      → ((c : Context) (w : World W S) → (lives (h c w).0 ≡ true) × ((h c w).1 ≡ c))
      → Answered c w (chain g clock config h c w)
  chain-Answered config h c w l =
      let (b, bs, n', name) = named clock c.request_id_header w.request_id_counter in
      let w' = record w { request_id_counter = n' } in
      elim (Bool-cases (is_preflight config c)) [
        | inl ends ↦
            subst (Answered c w) (sym (chain-preflight g clock config h c w (b ∷ bs) n' ends name))
              (_, no_body, b ∷ bs, n', refl, id_header-shared config b bs c, name)
        | inr passes ↦
            subst (Answered c w) (sym (chain-account g clock config h c w (b ∷ bs) n' passes name))
              (account-Answered config (b ∷ bs) n' c (seen config clock (b ∷ bs) c) w _
                (l (seen config clock (b ∷ bs) c) w') (id_header-seen config clock b bs c) name)
      ]

module _ {S : Type 0} (e : Engine S) (dicts : Dicts) (now : ℤ) where
  is_nil-of-is_panic : (o : Outcome S) → is_panic e dicts now o ≡ false → is_nil o ≡ false
  is_nil-of-is_panic (r, some err, s) h = refl
  is_nil-of-is_panic (some r, none, s) h = refl
  is_nil-of-is_panic (none, none, s) h = h

  is_nil-browse : (req : Request) (s : S) → is_nil (browse e dicts now (some req) s) ≡ false
  unfolding browse
  is_nil-browse req s = elim (Option-cases e.rules) [
    | inl off ↦ ground (arith, off)
    | inr (rs, on) ↦
        let same : browse e dicts now (some req) s ≡ match_rules e dicts now rs req false s =
          ground (arith, on) in
        ap is_nil same ∙ is_nil-of-is_panic _ (is_panic-match_rules e dicts now rs req false s)
  ]

  is_nil_cong : (o o' : Outcome S) → o.0 ≡ o'.0 → o.1 ≡ o'.1 → is_nil o' ≡ false → is_nil o ≡ false
  is_nil_cong (r, some err, s) o' a b h = refl
  is_nil_cong (some r, none, s) o' a b h = refl
  is_nil_cong (none, none, s) (none, none, s') a b h = absurd (ground (arith, h))
  is_nil_cong (none, none, s) (some r, err, s') a b h = absurd (ground (arith, a))
  is_nil_cong (none, none, s) (none, some err, s') a b h = absurd (ground (arith, b))

  is_nil-adapter : (req : ApiRequest) (s : S) → is_nil ((adapter e dicts now).browse req s) ≡ false
  is_nil-adapter req s =
      let same = adapter_browse-browse e dicts now req.update (engine_request req) s in
      is_nil_cong _ _ same.0 same.1 (is_nil-browse (engine_request req) s)

module _ {W S : Type 0} (e : Engine S) (dicts : Dicts) (now : ℤ) (binding : Binding)
    (g : Globals W Field) (clock : Clock) (config : Option RouterConfig) where
  -- On the program's engine, every request for which gin finds a route, or none, is answered with a
  -- status, and the header X-Request-ID of the answer is the request's own, or a new one if it has
  -- none: no panic comes out of the chain, and Batch does not end the process.
  pub serve-Answered :
      (found : Found) (c : Context) (w : World W S)
      → is_redirect found ≡ false
      → Answered g clock c w (serve (adapter e dicts now) binding g clock config found c w)
  unfolding serve
  serve-Answered (matched r) c w h =
      chain-Answered g clock (config_or_default config) _ (record c { full_path = r.pattern }) w
        (run_endpoint-Lives (adapter e dicts now) (is_nil-adapter e dicts now) binding
          (config_or_default config).enable_metrics clock r.endpoint)
  serve-Answered missing c w h =
      chain-Answered g clock (config_or_default config) not_found (record c { full_path = [] }) w
        (λ c w. (refl, refl))
  serve-Answered (redirected status) c w h = absurd (ground (arith, h))
