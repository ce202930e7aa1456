-- ===== src/Startup/Main/Ready.antt =====
-- When the server runs, and with what.
use koala_v.Prelude.{
  ℕ, Text, lookup, [], ◌∷◌, false, none, some, ◌⊎◌, inl, inr, ◌≡◌, refl, ap, ◌∙◌, arith, Sum-cases,
  Option-cases,
}
use koala_v.Rules.{RulesConfig}
use koala_v.Rules.Validate.{validate_rules}
use koala_v.Rules.Load.{load_rules}
use koala_v.Dict.{DictManager}
use koala_v.Matcher.Dict.{match}
use koala_v.Config.{Config, load_config}
use koala_v.Engine
use koala_v.Engine.{Engine, with_storage, with_dicts}
use koala_v.Engine.Matching.{RuleSet}
use koala_v.Engine.Build.{build_rule_set}
use koala_v.Engine.Build.Accepted.{build_rule_set-accepted}
use koala_v.Engine.Bridge.{answer, match-sync_dicts_to_matcher}
use koala_v.Startup.{local_options, init_storage}
use koala_v.Startup.Chosen.{StartsWith, init_storage-StartsWith}
use koala_v.Startup.Main.{
  Environment, Program, Started, serving, dicts_for, State, storage, run_server, main,
  router_config_of,
}

load_rules-validate_rules :
    {E : Type 0} (decode : Text → E ⊎ RulesConfig) (path : Text) (rules : RulesConfig)
    → load_rules decode path ≡ inr rules
    → validate_rules rules ≡ none
unfolding load_rules
load_rules-validate_rules decode path rules h = elim (Sum-cases (decode path)) [
  | inl (e, d) ↦ absurd (ground (arith, h, d))
  | inr (r, d) ↦ elim (Option-cases (validate_rules r)) [
    | inl v ↦ ground (arith, h, d, v)
    | inr (e, v) ↦ absurd (ground (arith, h, d, v))
  ]
]

built :
    (rules : RulesConfig)
    → validate_rules rules ≡ none
    → (rs : RuleSet) × (build_rule_set rules ≡ inl rs)
built rules valid = elim (Sum-cases (build_rule_set rules)) [
  | inl done ↦ done
  | inr (e, refused) ↦ absurd (ground (arith, refused, build_rule_set-accepted rules valid))
]

module _ {R L E F : Type 0} (env : Environment R L E F) (config_file : Text) where
  abbrev pub start : Started (State R L) F E
  start = main env false config_file

  -- The engine after main has loaded its rules.
  abbrev loaded : RuleSet → DictManager → Engine (State R L)
  loaded rs m = record { rules = some rs; storage = some (storage env); dicts = some m }

  abbrev engine_with : DictManager → Engine (State R L)
  engine_with m = Engine.new (with_storage (storage env) ∷ with_dicts m ∷ [])

  load_rules-new :
      (rules : RulesConfig) (rs : RuleSet) (m : DictManager)
      → build_rule_set rules ≡ inl rs
      → Engine.load_rules rules (engine_with m) ≡ (none, loaded rs m)
  unfolding Engine.load_rules Engine.new
  load_rules-new rules rs m h = ground (arith, h)

  start-run_server :
      (cfg : Config) (rules : RulesConfig) (m : DictManager) (x : State R L)
      → load_config env.disk.decode_config config_file ≡ inr cfg
      → init_storage env.new_local env.new_redis cfg ≡ some x
      → load_rules env.disk.decode_rules cfg.rules.file ≡ inr rules
      → dicts_for env.disk.read rules.dicts ≡ some m
      → start ≡ run_server env config_file cfg m x (Engine.load_rules rules (engine_with m))
  unfolding main
  start-run_server cfg rules m x c i r d = ground (arith, c, i, r, d)

  -- A program whose engine has the rules of the rules file and the storage of the configuration, and
  -- whose matcher answers for a name what the dictionary of that name says.
  pub record Runs (cfg : Config) (l : L) (rules : RulesConfig) (m : DictManager) (c : ℕ)
      (cs value : Text) (p : Program (State R L) F) : Type 0 where
    pub rule_set : RuleSet
    pub built : build_rule_set rules ≡ inl rule_set
    pub with_rules : p.engine.rules ≡ some rule_set
    pub with_storage : p.engine.storage ≡ some (storage env)
    pub chosen : StartsWith env.new_local env.new_redis l p.state
    pub listens : p.listen ≡ cfg.server.listen
    pub configured : p.router_config ≡ router_config_of cfg
    pub matches :
        match p.matcher (b'@' ∷ c ∷ cs) value ≡ answer (lookup (c ∷ cs) m.dicts) value false

  run_server-Runs :
      (cfg : Config) (l : L) (rules : RulesConfig) (m : DictManager) (c : ℕ) (cs value : Text)
      (x : State R L) (rs : RuleSet)
      → StartsWith env.new_local env.new_redis l x
      → build_rule_set rules ≡ inl rs
      → (p : Program (State R L) F) × (run_server env config_file cfg m x (none, loaded rs m)
          ≡ serving p)
        × Runs cfg l rules m c cs value p
  unfolding run_server match lookup
  run_server-Runs cfg l rules m c cs value x rs s b = (
    _,
    refl,
    record {
      rule_set = rs;
      built = b;
      with_rules = refl;
      with_storage = refl;
      chosen = s;
      listens = refl;
      configured = refl;
      matches = match-sync_dicts_to_matcher m c cs value [];
    },
  )

  -- Without the flag `version`: if the configuration and the rules can be read and pass their
  -- validation, the local storage can be made and the dictionaries of the rules can be loaded, then
  -- main comes to the start of its server, whose engine has the rule set that is built from the rules,
  -- the building of which does not fail, and the storage.
  pub start-Runs :
      (cfg : Config) (l : L) (rules : RulesConfig) (m : DictManager) (c : ℕ) (cs value : Text)
      → load_config env.disk.decode_config config_file ≡ inr cfg
      → env.new_local (local_options cfg) ≡ some l
      → load_rules env.disk.decode_rules cfg.rules.file ≡ inr rules
      → dicts_for env.disk.read rules.dicts ≡ some m
      → (p : Program (State R L) F) × (start ≡ serving p) × Runs cfg l rules m c cs value p
  start-Runs cfg l rules m c cs value hc hl hr hd =
      let (x, i, s) = init_storage-StartsWith env.new_local env.new_redis cfg l hl in
      let (rs, b) = built rules (load_rules-validate_rules env.disk.decode_rules _ rules hr) in
      let (p, ran, runs) = run_server-Runs cfg l rules m c cs value x rs s b in
      (
        p,
        start-run_server cfg rules m x hc i hr hd
            ∙ ap (run_server env config_file cfg m x) (load_rules-new rules rs m b)
            ∙ ran,
        runs,
      )

  -- What main needs to serve.
  abbrev pub Loads : Config → L → RulesConfig → DictManager → Type 0
  Loads cfg l rules m =
      (load_config env.disk.decode_config config_file ≡ inr cfg)
      × (env.new_local (local_options cfg) ≡ some l)
      × (load_rules env.disk.decode_rules cfg.rules.file ≡ inr rules)
      × (dicts_for env.disk.read rules.dicts ≡ some m)

  init_storage-new_local :
      (cfg : Config) (x : State R L)
      → init_storage env.new_local env.new_redis cfg ≡ some x
      → (l : L) × (env.new_local (local_options cfg) ≡ some l)
  unfolding init_storage
  init_storage-new_local cfg x h = elim (Option-cases (env.new_local (local_options cfg))) [
    | inl n ↦ absurd (ground (arith, h, n))
    | inr found ↦ found
  ]

  -- The server runs only if all of that can be loaded: every other outcome is one of the fatal errors.
  pub start-Loads :
      (p : Program (State R L) F)
      → start ≡ serving p
      → (cfg : Config) × (l : L) × (rules : RulesConfig) × (m : DictManager) × Loads cfg l rules m
  unfolding main
  start-Loads p h = elim (Sum-cases (load_config env.disk.decode_config config_file)) [
    | inl (e, c) ↦ absurd (ground (arith, h, c))
    | inr (cfg, c) ↦ elim (Option-cases (init_storage env.new_local env.new_redis cfg)) [
      | inl n ↦ absurd (ground (arith, h, c, n))
      | inr (x, i) ↦ elim (Sum-cases (load_rules env.disk.decode_rules cfg.rules.file)) [
        | inl (e, r) ↦ absurd (ground (arith, h, c, i, r))
        | inr (rules, r) ↦ elim (Option-cases (dicts_for env.disk.read rules.dicts)) [
          | inl n ↦ absurd (ground (arith, h, c, i, r, n))
          | inr (m, d) ↦
              let (l, n) = init_storage-new_local cfg x i in (cfg, l, rules, m, (c, n, r, d))
        ]
      ]
    ]
  ]
