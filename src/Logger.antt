-- ===== src/Logger.antt =====
-- pkg/logger/logger.go: the package's logger over log/slog. Every LevelVar is set once, right after it
-- is made, so that a handler keeps a level; the lock makes each call one step.
pub mod History
use koala_v.Prelude.{
  ◌+◌, ℤ, pos, negsuc, leb, leb_ℤ, Text, bytes, text_eq, trim_space, List, [], ◌++◌, map, Bool,
  true, false, not, ◌&&◌, Option, none, some, if◌then◌else◌, ℕ,
}

-- strings.ToLower of ASCII.
abbrev lower : ℕ → ℕ
lower c = if leb b'A' c && leb c b'Z' then c + 32 else c

abbrev pub to_lower : Text → Text
to_lower s = map lower s

-- slog.Level.
abbrev pub level_debug : ℤ
level_debug = negsuc 3

abbrev pub level_info : ℤ
level_info = pos 0

abbrev level_warn : ℤ
level_warn = pos 4

abbrev level_error : ℤ
level_error = pos 8

unfoldable pub parse_level : Text → ℤ
parse_level level =
    let l = to_lower (trim_space level) in
    if text_eq l (bytes "debug")
    then level_debug
    else if text_eq l (bytes "info")
    then level_info
    else if text_eq l (bytes "warn")
    then level_warn
    else if text_eq l (bytes "error")
    then level_error
    else level_info

abbrev pub known_format : Text → Text
known_format format =
    if not (text_eq format (bytes "json")) && not (text_eq format (bytes "console"))
    then bytes "console"
    else format

module _ (W V : Type 0) where
  -- A JSONHandler or a TextHandler: where it writes to, and from which level.
  pub record Handler : Type 0 where
    pub json : Bool
    pub writer : W
    pub level : ℤ

  -- *slog.Logger, with its preset fields.
  pub record SlogLogger : Type 0 where
    pub handler : Handler
    pub fields : List V

  -- What a handler writes.
  pub record Line : Type 0 where
    pub json : Bool
    pub writer : W
    pub level : ℤ
    pub message : Text
    pub fields : List V

  -- The variables of the package.
  pub record Globals : Type 0 where
    pub default_logger : SlogLogger
    pub current_level : ℤ
    pub current_writer : W
    pub current_format : Text

module _ {W V : Type 0} where
  unfoldable pub build_handler : W → ℤ → Text → Handler W V
  build_handler w level format =
      if text_eq format (bytes "json")
      then record { json = true; writer = w; level = level }
      else record { json = false; writer = w; level = level }

  -- `slog.New`.
  abbrev new_logger : Handler W V → SlogLogger W V
  new_logger h = record { handler = h; fields = [] }

  -- The function init; the writer is os.Stderr.
  unfoldable pub initial : W → Globals W V
  unfolding build_handler
  initial stderr = record {
    default_logger = new_logger (build_handler stderr level_info (bytes "console"));
    current_level = level_info;
    current_writer = stderr;
    current_format = bytes "console";
  }

  -- The function Init.
  unfoldable pub init : Text → Text → Globals W V → Globals W V
  unfolding build_handler parse_level
  init level format g =
      let l = parse_level level in
      let f = known_format (to_lower (trim_space format)) in
      record g {
        current_level = l;
        current_format = f;
        default_logger = new_logger (build_handler g.current_writer l f);
      }

  unfoldable pub set_output : W → Globals W V → Globals W V
  unfolding build_handler
  set_output w g = record g {
    current_writer = w;
    default_logger = new_logger (build_handler w g.current_level g.current_format);
  }

  -- The method of slog: the line that is written, if the level is enabled.
  unfoldable pub log : ℤ → Text → List V → SlogLogger W V → Option (Line W V)
  log level message args l =
      if leb_ℤ l.handler.level level
      then some (record {
        json = l.handler.json;
        writer = l.handler.writer;
        level = level;
        message = message;
        fields = l.fields ++ args;
      })
      else none

  module _ (message : Text) (args : List V) (g : Globals W V) where
    abbrev pub info : Option (Line W V)
    info = log level_info message args g.default_logger

    abbrev pub warn : Option (Line W V)
    warn = log level_warn message args g.default_logger

    abbrev pub error : Option (Line W V)
    error = log level_error message args g.default_logger

    abbrev pub debug : Option (Line W V)
    debug = log level_debug message args g.default_logger

  abbrev with_fields : List V → SlogLogger W V → SlogLogger W V
  with_fields args l = record l { fields = l.fields ++ args }

  -- The function With.
  abbrev pub with : List V → Globals W V → SlogLogger W V
  with args g = with_fields args g.default_logger
