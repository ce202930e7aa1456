-- ===== src/Tests/Errors.antt =====
-- The theorems of the errors, the logger and the runs of the storage manager at concrete inputs.
use koala_v.Prelude.{
  ℕ, pos, leb_ℤ, Text, bytes, text_eq, trim_space, List, [], ◌∷◌, true, none, some, ◌≡◌, refl,
  arith, if◌then◌else◌,
}
use koala_v.Errors.{GoError, internal_error, plain, wrapping, pointer, safe_msg}
use koala_v.Errors.Safe.{redact, safe_msg-eq_of_redact}
use koala_v.Logger.{level_debug, parse_level, log, with, initial}
use koala_v.Logger.History.{
  Configure, init_with, output_to, configure, last_level, last_json, last_output, log-configure,
}
use koala_v.Storage.{backend}
use koala_v.Storage.Manager.{Options, primary, fallback, new_with_options}
use koala_v.Storage.Manager.Run.{Event, action, run, degraded-run}

-- A query that failed, with the text of one password or another.
abbrev query_error : Text → GoError
query_error password =
    wrapping password (internal_error (pointer password (bytes "try again") (plain password)))

safe_msg-eq_of_redact_example :
    safe_msg (query_error (bytes "a")) (bytes "error")
    ≡ safe_msg (query_error (bytes "b")) (bytes "error")
unfolding redact
safe_msg-eq_of_redact_example =
    safe_msg-eq_of_redact (query_error (bytes "a")) (query_error (bytes "b")) (bytes "error") refl

-- The output 1 in place of 0, and then JSON from the level `debug` on.
abbrev calls : List (Configure ℕ)
calls = output_to 1 ∷ init_with (bytes " Debug ") (bytes "JSON") ∷ []

log-configure_example :
    log {W = ℕ} {V = ℕ} level_debug
      (bytes "hit")
      (2 ∷ [])
      (with (1 ∷ []) (configure calls (initial 0)))
    ≡ some (record {
      json = true;
      writer = 1;
      level = level_debug;
      message = bytes "hit";
      fields = 1 ∷ 2 ∷ [];
    })
unfolding last_level last_json last_output parse_level text_eq trim_space
log-configure_example = log-configure calls 0 level_debug (bytes "hit") (1 ∷ []) (2 ∷ [])

-- A primary that fails, and one failure that is allowed.
abbrev failing : Event ℕ ℕ
failing = action (λ p. (some (backend []), p)) (λ f. (none, f))

abbrev one_failure : Options
one_failure = record {
  has_primary = true;
  max_failures = pos 1;
  health_check_interval = pos 1;
  recovery_interval = pos 1;
}

degraded-run_example :
    let m₀ = new_with_options {P = ℕ} {F = ℕ} one_failure 0 0 in
    let (m, failures) = run (failing ∷ []) m₀ 0 in
    (m.degraded ≡ leb_ℤ m₀.max_failures (pos failures))
    × (m.current ≡ (if leb_ℤ m₀.max_failures (pos failures) then fallback else primary))
degraded-run_example = degraded-run (failing ∷ []) one_failure 0 0 refl (omega arith)
