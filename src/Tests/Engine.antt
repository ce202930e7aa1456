-- ===== src/Tests/Engine.antt =====
-- The engine's theorems on one rule, over the local storage.
use koala_v.Prelude.{
  pos, Text, bytes, [], ◌∷◌, true, none, some, ◌≡◌, refl, arith, lookup, contains_byte, text_eq,
  Table, ◌+ℤ◌,
}
use mathlib.Core.List.{Permᴰ}
use koala_v.Storage.Local.Counters.Live.{live, local_counter_laws}
use koala_v.Matcher.{match_any}
use koala_v.Matcher
use koala_v.Matcher.Range.{index_from}
use koala_v.Engine.Message.{get_field}
use koala_v.Engine.{Engine, first_match, check, browse, match_rules}
use koala_v.Engine.Matching.{matches, match_all, condition, generate_key}
use koala_v.Engine.Admission.{admitted, admitted_window, Decides}
use koala_v.Engine.Precedence.{match_rules-decision, check-browse, decision, rate_rules}
use koala_v.Engine.Order.{generate_key-perm}
use koala_v.Engine.Build.{compile}
use koala_v.Engine.Build.Compiled.{match_all-compile}
use koala_v.Tests.Data.{State, store, counter_laws, empty, login, any_login, rules}

abbrev limiter : Engine State
limiter = record { rules = some rules; storage = some store; dicts = none }

any_login-Decides : Decides [] rules login any_login
unfolding first_match matches match_all condition Matcher.match lookup Matcher.parse contains_byte
    index_from text_eq get_field match_any
any_login-Decides = record { no_white = refl; no_black = refl; first_rate = refl; counts = refl }

admitted_window_example : admitted limiter [] login (pos 0 ∷ pos 1 ∷ pos 2 ∷ pos 3 ∷ []) empty ≡ 2
unfolding live lookup local_counter_laws ◌+ℤ◌
admitted_window_example =
    admitted_window store counter_laws [] rules login any_login any_login-Decides (pos 0) (pos 3)
      (pos 1 ∷ pos 2 ∷ pos 3 ∷ []) 2 empty refl (omega arith) refl refl
      (omega arith, (omega arith, (omega arith, omega arith)))
      (omega arith, (omega arith, (omega arith, tt))) (omega arith)

match_rules-decision_example :
    match_rules limiter [] (pos 0) rules login true empty
    ≡ decision limiter []
        (pos 0)
        (first_match [] login rules.whitelist)
        (first_match [] login rules.blacklist)
        (first_match [] login (rate_rules rules))
        login
        true
        empty
match_rules-decision_example = match_rules-decision limiter [] (pos 0) rules login true empty

check-browse_example : check limiter [] (pos 0) none empty ≡ browse limiter [] (pos 0) none empty
unfolding browse
check-browse_example = check-browse limiter [] (pos 0) none empty refl

abbrev swapped : Table Text
swapped = (bytes "uid", bytes "+") ∷ (bytes "act", bytes "login") ∷ []

swapped-Permᴰ : Permᴰ any_login.match swapped
swapped-Permᴰ = Permᴰ.swap refl refl

generate_key-perm_example :
    generate_key any_login login ≡ generate_key (record any_login { match = swapped }) login
generate_key-perm_example = generate_key-perm login any_login swapped swapped-Permᴰ

match_all-compile_example :
    match_all [] (compile any_login.match []) login any_login.match
    ≡ match_all [] [] login any_login.match
unfolding lookup text_eq
match_all-compile_example = match_all-compile [] login any_login.match (refl, (refl, tt))
