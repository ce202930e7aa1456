-- ===== src/Engine/Adapter.antt =====
-- cmd/koala/main.go: EngineAdapter, which the HTTP handlers call. The conversion between the API's
-- types and the engine's is field by field; `update` is the request's flag.
use koala_v.Prelude.{◌≡◌, arith, false, ℤ, Bool, Option, none, some, if◌then◌else◌, ◌&&◌}
use koala_v.Matcher.Dict.{Dicts}
use koala_v.Engine.Message.{Request}
use koala_v.Engine.{
  match_rules, apply_phases, apply_rule, Engine, EngineError, Outcome, browse, check,
}

module _ {S : Type 0} (e : Engine S) (dicts : Dicts) (now : ℤ) where
  -- Check runs only for an allowed response, and its results are dropped.
  unfoldable pub adapter_browse : Bool → Request → S → Outcome S
  adapter_browse update req s =
      let (response, err, s₁) = browse e dicts now (some req) s in
      elim err [
        | some e ↦ (none, some e, s₁)
        | none ↦ elim response [
          | none ↦ (none, none, s₁)
          | some r ↦
              if update && r.allowed
              then (some r, none, (check e dicts now (some req) s₁).2)
              else (some r, none, s₁)
        ]
      ]

  unfoldable pub adapter_update : Request → S → Option EngineError × S
  adapter_update req s = let (response, err, s₁) = check e dicts now (some req) s in (err, s₁)

  -- EngineAdapter.Browse answers as Engine.Browse does, error or response, with the flag and
  -- without it; without the flag it also leaves the state that Engine.Browse leaves.
  pub adapter_browse-browse :
      (update : Bool) (req : Request) (s : S)
      → ((adapter_browse update req s).0 ≡ (browse e dicts now (some req) s).0)
        × ((adapter_browse update req s).1 ≡ (browse e dicts now (some req) s).1)
        × ((adapter_browse false req s).2 ≡ (browse e dicts now (some req) s).2)
  unfolding adapter_browse browse match_rules apply_phases apply_rule
  adapter_browse-browse update req s = ground arith
