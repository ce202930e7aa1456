-- ===== src/Logger/History.antt =====
-- What is logged after any calls of Init and SetOutput.
use koala_v.Prelude.{
  ℤ, leb_ℤ, Text, bytes, text_eq, trim_space, List, [], ◌∷◌, ◌++◌, Bool, false, none, some, ◌≡◌,
  refl, arith, if◌then◌else◌, Bool-cases, inl, inr,
}
use koala_v.Logger.{
  to_lower, level_info, parse_level, Globals, build_handler, initial, init, set_output, log, with,
  known_format,
}

-- The calls that configure the package's logger.
pub data Configure (W : Type 0) : Type 0 where
  init_with : Text → Text → Configure W
  output_to : W → Configure W

module _ {W : Type 0} where
  -- What the last call of each kind says, or else what held before.
  unfoldable pub last_level : List (Configure W) → ℤ → ℤ
  last_level [] before = before
  last_level (init_with level format ∷ calls) before = last_level calls (parse_level level)
  last_level (output_to w ∷ calls) before = last_level calls before

  unfoldable pub last_json : List (Configure W) → Bool → Bool
  last_json [] before = before
  last_json (init_with level format ∷ calls) before =
      last_json calls (text_eq (to_lower (trim_space format)) (bytes "json"))
  last_json (output_to w ∷ calls) before = last_json calls before

  unfoldable pub last_output : List (Configure W) → W → W
  last_output [] before = before
  last_output (init_with level format ∷ calls) before = last_output calls before
  last_output (output_to w ∷ calls) before = last_output calls w

-- Another format than "json" and "console" does not become "json".
json-known_format :
    (format : Text) → text_eq (known_format format) (bytes "json") ≡ text_eq format (bytes "json")
unfolding text_eq
json-known_format format = elim (Bool-cases (text_eq format (bytes "json"))) [
  | inl e ↦ ground (arith, e)
  | inr e ↦ ground (arith, e)
]

module _ {W V : Type 0} where
  build_handler-json :
      (w : W) (l : ℤ) (format : Text)
      → build_handler {V = V} w l format
        ≡ record { json = text_eq format (bytes "json"); writer = w; level = l }
  unfolding build_handler
  build_handler-json w l format = ground arith

  unfoldable pub configure : List (Configure W) → Globals W V → Globals W V
  configure [] g = g
  configure (init_with level format ∷ calls) g = configure calls (init level format g)
  configure (output_to w ∷ calls) g = configure calls (set_output w g)

  -- The package's logger writes where, from where and how the variables say.
  abbrev InStep : Globals W V → ℤ → Bool → W → Type 0
  InStep g level json w =
      (g.current_level ≡ level)
      × (text_eq g.current_format (bytes "json") ≡ json)
      × (g.current_writer ≡ w)
      × (g.default_logger
          ≡ record { handler = record { json = json; writer = w; level = level }; fields = [] })

  InStep-init :
      (level format : Text) (g : Globals W V) {l : ℤ} {json : Bool} {w : W}
      → InStep g l json w
      → InStep
          (init level format g)
          (parse_level level)
          (text_eq (to_lower (trim_space format)) (bytes "json"))
          w
  unfolding init
  InStep-init level format g s =
      let f = to_lower (trim_space format) in
      ground (
        arith,
        json-known_format f,
        build_handler-json g.current_writer (parse_level level) (known_format f),
      )

  InStep-set_output :
      (w' : W) (g : Globals W V) {l : ℤ} {json : Bool} {w : W}
      → InStep g l json w
      → InStep (set_output w' g) l json w'
  unfolding set_output
  InStep-set_output w' g s = ground (arith, build_handler-json w' g.current_level g.current_format)

  InStep-configure :
      (calls : List (Configure W)) (g : Globals W V) {l : ℤ} {json : Bool} {w : W}
      → InStep g l json w
      → InStep (configure calls g) (last_level calls l) (last_json calls json) (last_output calls w)
  unfolding configure last_level last_json last_output
  InStep-configure [] g s = s
  InStep-configure (init_with level format ∷ calls) g s =
      InStep-configure calls (init level format g) (InStep-init level format g s)
  InStep-configure (output_to w ∷ calls) g s =
      InStep-configure calls (set_output w g) (InStep-set_output w g s)

  InStep-initial : (stderr : W) → InStep (initial stderr) level_info false stderr
  unfolding initial build_handler text_eq
  InStep-initial stderr = (refl, refl, refl, refl)

  InStep-log :
      (g : Globals W V) (l : ℤ) (json : Bool) (w : W) (level : ℤ) (message : Text)
      (preset args : List V)
      → InStep g l json w
      → log level message args (with preset g) ≡ (
          if leb_ℤ l level
          then some (record {
            json = json;
            writer = w;
            level = level;
            message = message;
            fields = preset ++ args;
          })
          else none)
  unfolding log
  InStep-log g l json w level message preset args s = ground arith

  -- From the start of the program, after any calls of Init and SetOutput: a message, with the fields
  -- that With has preset, is written exactly when its level is at least that of the last Init, `info`
  -- if there was none; as JSON exactly when the format of the last Init is "json", whatever its case
  -- and the white space around it; and to the last output, or else to the standard error.
  pub log-configure :
      (calls : List (Configure W)) (stderr : W) (level : ℤ) (message : Text) (preset args : List V)
      → log level message args (with preset (configure calls (initial stderr))) ≡ (
          if leb_ℤ (last_level calls level_info) level
          then some (record {
            json = last_json calls false;
            writer = last_output calls stderr;
            level = level;
            message = message;
            fields = preset ++ args;
          })
          else none)
  log-configure calls stderr level message preset args =
      InStep-log (configure calls (initial stderr)) _ _ _ level message preset args
        (InStep-configure calls (initial stderr) (InStep-initial stderr))
