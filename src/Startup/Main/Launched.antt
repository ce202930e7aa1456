-- ===== src/Startup/Main/Launched.antt =====
-- Whether the server comes to run, and with what.
use mathlib.Core.Path.{subst}
use koala_v.Prelude.{ℕ, Text, Option, none, some, inr, ◌≡◌, refl, [], ◌↔◌, sym, ap, arith}
use koala_v.Rules.{RulesConfig}
use koala_v.Rules.Load.{load_rules}
use koala_v.Dict.{DictManager}
use koala_v.Config.{Config, load_config}
use koala_v.Api.Router
use koala_v.Api.Router.{ServeError, server_closed, serve_failed}
use koala_v.Startup.{local_options}
use koala_v.Startup.Main.{
  Environment, Program, Started, version_shown, failed, serving, server_fatal, dicts_for, State,
  launch,
}
use koala_v.Startup.Main.Ready.{start, Runs, start-Runs, Loads, start-Loads}

module _ {R L E F : Type 0} (env : Environment R L E F) (config_file : Text) (cfg : Config) (l : L)
    (rules : RulesConfig) (m : DictManager) (c : ℕ) (cs value : Text) where
  abbrev Served : Started (State R L) F E → Type 0
  Served o =
      (p : Program (State R L) F) × (o ≡ serving p)
      × Runs env config_file cfg l rules m c cs value p

  -- By what ListenAndServe ends with: it failed, it was closed, or it serves.
  abbrev pub Launched : Option ServeError → Started (State R L) F E → Type 0
  Launched (some (serve_failed t)) o = o ≡ failed (server_fatal (serve_failed t))
  Launched (some server_closed) o = Served o
  Launched none o = Served o

  launched :
      (listened : Text → Option ServeError) (e : Option ServeError) (p : Program (State R L) F)
      → Runs env config_file cfg l rules m c cs value p
      → listened p.listen ≡ e
      → Launched e (launch listened (serving p))
  unfolding launch Router.run
  launched listened none p runs h = (p, ground (arith, h), runs)
  launched listened (some server_closed) p runs h = (p, ground (arith, h), runs)
  launched listened (some (serve_failed t)) p runs h = ground (arith, h)

  -- Without the flag `version`: if the configuration and the rules can be read and pass their
  -- validation, the local storage can be made and the dictionaries of the rules can be loaded, then
  -- main listens on the address of the configuration. If ListenAndServe fails there, main ends with
  -- that error. Otherwise, while it serves and also when it has been closed, the program goes on: its
  -- engine has the rule set that is built from the rules, the building of which does not fail, and the
  -- storage, which is the local one or a valid manager that falls back to it; and the pattern "@name"
  -- accepts the entries of the dictionary of that name, and nothing if there is none. Neither Redis
  -- nor the watcher can prevent it.
  pub launch-start :
      (listened : Text → Option ServeError)
      → load_config env.disk.decode_config config_file ≡ inr cfg
      → env.new_local (local_options cfg) ≡ some l
      → load_rules env.disk.decode_rules cfg.rules.file ≡ inr rules
      → dicts_for env.disk.read rules.dicts ≡ some m
      → Launched (listened cfg.server.listen) (launch listened (start env config_file))
  launch-start listened hc hl hr hd =
      let (p, ran, runs) = start-Runs env config_file cfg l rules m c cs value hc hl hr hd in
      subst (λ o. Launched (listened cfg.server.listen) (launch listened o)) (sym ran)
        (launched listened (listened cfg.server.listen) p runs (ap listened runs.listens))

launch-serving :
    {S F E : Type 0} (listened : Text → Option ServeError) (o : Started S F E) (p : Program S F)
    → launch listened o ≡ serving p
    → (p' : Program S F) × (o ≡ serving p')
unfolding launch
launch-serving listened version_shown p h = absurd (ground (arith, h))
launch-serving listened (failed e) p h = absurd (ground (arith, h))
launch-serving listened (serving p') p h = (p', refl)

module _ {R L E F : Type 0} (env : Environment R L E F) (config_file : Text)
    (listened : Text → Option ServeError) where
  abbrev Listens : Option ServeError → Type 0
  Listens (some (serve_failed t)) = ⊥
  Listens (some server_closed) = Unit
  Listens none = Unit

  -- The program, once its server has been started.
  abbrev pub GoesOn : Type 0
  GoesOn = (p : Program (State R L) F) × (launch listened (start env config_file) ≡ serving p)

  -- What the program needs to go on.
  abbrev pub Needs : Type 0
  Needs =
      (cfg : Config) × (l : L) × (rules : RulesConfig) × (m : DictManager) × Loads env config_file
        cfg l rules m
      × Listens (listened cfg.server.listen)

  Launched-Listens :
      (cfg : Config) (l : L) (rules : RulesConfig) (m : DictManager) (p : Program (State R L) F)
      (e : Option ServeError)
      → Launched env config_file cfg l rules m 0 [] [] e (launch listened (start env config_file))
      → launch listened (start env config_file) ≡ serving p
      → Listens e
  Launched-Listens cfg l rules m p none h on = tt
  Launched-Listens cfg l rules m p (some server_closed) h on = tt
  Launched-Listens cfg l rules m p (some (serve_failed t)) h on = absurd (ground (arith, h, on))

  Listens-serving :
      (cfg : Config) (l : L) (rules : RulesConfig) (m : DictManager) (e : Option ServeError)
      → Launched env config_file cfg l rules m 0 [] [] e (launch listened (start env config_file))
      → Listens e
      → GoesOn
  Listens-serving cfg l rules m none (p, on, runs) ok = (p, on)
  Listens-serving cfg l rules m (some server_closed) (p, on, runs) ok = (p, on)
  Listens-serving cfg l rules m (some (serve_failed t)) h ok = elim ok [ ]

  -- Without the flag `version`, the program goes on after it has started its server exactly if the
  -- configuration and the rules can be read and pass their validation, the local storage can be made,
  -- the dictionaries of the rules can be loaded, and ListenAndServe on the address of the
  -- configuration does not fail, except by being closed.
  pub launch-serving_iff : GoesOn ↔ Needs
  launch-serving_iff = (
    λ (p, on).
        let (p', ran) = launch-serving listened (start env config_file) p on in
        let (cfg, l, rules, m, (hc, hl, hr, hd)) = start-Loads env config_file p' ran in
        (
          cfg,
          l,
          rules,
          m,
          (hc, hl, hr, hd),
          Launched-Listens cfg l rules m p (listened cfg.server.listen)
              (launch-start env config_file cfg l rules m 0 [] [] listened hc hl hr hd) on,
        ),
    λ (cfg, l, rules, m, (hc, hl, hr, hd), ok).
        Listens-serving cfg l rules m (listened cfg.server.listen)
          (launch-start env config_file cfg l rules m 0 [] [] listened hc hl hr hd) ok,
  )
