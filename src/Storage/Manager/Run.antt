-- ===== src/Storage/Manager/Run.antt =====
-- Any sequence of calls and health checks, against the number of failures of the primary since the
-- last health check that reached it.
use koala_v.Prelude.{
  ℕ, suc, ℤ, pos, ◌+ℤ◌, ◌<ℤ◌, leb_ℤ, wrap32, List, [], ◌∷◌, Bool, true, false, Option, none, some,
  ◌≡◌, refl, arith, if◌then◌else◌, ap, ◌∙◌,
}
use koala_v.Storage.{Storage, Call, Action, Error}
use koala_v.Storage.Manager.{
  StorageManager, Options, primary, fallback, new_with_options, check_health, execute,
  execute_action, is_error, on_current, action_on_current, record_failure, record_success,
}
use koala_v.Storage.Manager.Valid.{
  IsValid, new_with_options-IsValid, check_health-IsValid, execute-IsValid, execute_action-IsValid,
}

-- A call of either shape, as it is on the primary and on the fallback, or a health check.
pub data Event (P F : Type 0) : Type 1 where
  call : (A : Type 0) → Call P A → Call F A → Event P F
  action : Action P → Action F → Event P F
  health : Storage P → ℤ → Event P F

abbrev one_more : Bool → Option Error → ℕ → ℕ
one_more degraded err n = if degraded then n else if is_error err then suc n else n

abbrev pub checked : Option Error → ℕ → ℕ
checked none n = 0
checked (some e) n = suc n

module _ {P F : Type 0} where
  unfoldable pub apply : Event P F → StorageManager P F → StorageManager P F
  apply (call A fp ff) m = (execute fp ff m).2
  apply (action fp ff) m = (execute_action fp ff m).1
  apply (health store now) m = check_health store now m

  -- The failures of the primary: a call counts while the manager is not degraded, and a health check
  -- that reaches the primary starts anew. A call that succeeds does not.
  unfoldable pub tally : Event P F → StorageManager P F → ℕ → ℕ
  tally (call A fp ff) m n = one_more m.degraded (fp m.primary).1 n
  tally (action fp ff) m n = one_more m.degraded (fp m.primary).0 n
  tally (health store now) m n = checked (store.ping now m.primary).0 n

  unfoldable pub run : List (Event P F) → StorageManager P F → ℕ → StorageManager P F × ℕ
  run [] m n = (m, n)
  run (event ∷ events) m n = run events (apply event m) (tally event m n)

  record Counts (limit : ℤ) (m : StorageManager P F) (n : ℕ) : Type 0 where
    valid : IsValid m
    with_primary : m.has_primary ≡ true
    same_limit : m.max_failures ≡ limit
    degrades : m.degraded ≡ leb_ℤ m.max_failures (pos n)
    agrees : m.degraded ≡ false → m.failures ≡ pos n

  module _ (limit : ℤ) (m : StorageManager P F) (n : ℕ) where
    Counts-call :
        (A : Type 0) (fp : Call P A) (ff : Call F A)
        → Counts limit m n
        → Counts limit (execute fp ff m).2 (one_more m.degraded (fp m.primary).1 n)
    unfolding execute on_current record_failure wrap32 ◌+ℤ◌
    Counts-call A fp ff c = record {
      valid = execute-IsValid fp ff m c.valid;
      with_primary = ground (arith, c.valid);
      same_limit = ground (arith, c.valid);
      degrades = ground (arith, c.valid);
      agrees = λ d. ground (arith, c.valid);
    }

    Counts-action :
        (fp : Action P) (ff : Action F)
        → Counts limit m n
        → Counts limit (execute_action fp ff m).1 (one_more m.degraded (fp m.primary).0 n)
    unfolding execute_action action_on_current record_failure wrap32 ◌+ℤ◌
    Counts-action fp ff c = record {
      valid = execute_action-IsValid fp ff m c.valid;
      with_primary = ground (arith, c.valid);
      same_limit = ground (arith, c.valid);
      degrades = ground (arith, c.valid);
      agrees = λ d. ground (arith, c.valid);
    }

    Counts-health :
        (store : Storage P) (now : ℤ)
        → Counts limit m n
        → Counts limit (check_health store now m) (checked (store.ping now m.primary).0 n)
    unfolding check_health record_failure record_success wrap32 ◌+ℤ◌
    Counts-health store now c = record {
      valid = check_health-IsValid store now m c.valid;
      with_primary = ground (arith, c.valid);
      same_limit = ground (arith, c.valid);
      degrades = ground (arith, c.valid);
      agrees = λ d. ground (arith, c.valid);
    }

  Counts-apply :
      (event : Event P F) (limit : ℤ) (m : StorageManager P F) (n : ℕ)
      → Counts limit m n
      → Counts limit (apply event m) (tally event m n)
  unfolding apply tally
  Counts-apply (call A fp ff) limit m n c = Counts-call limit m n A fp ff c
  Counts-apply (action fp ff) limit m n c = Counts-action limit m n fp ff c
  Counts-apply (health store now) limit m n c = Counts-health limit m n store now c

  Counts-run :
      (events : List (Event P F)) (limit : ℤ) (m : StorageManager P F) (n : ℕ)
      → Counts limit m n
      → Counts limit (run events m n).0 (run events m n).1
  unfolding run
  Counts-run [] limit m n c = c
  Counts-run (event ∷ events) limit m n c =
      Counts-run events limit (apply event m) (tally event m n) (Counts-apply event limit m n c)

  Counts-new :
      (opts : Options) (p : P) (f : F)
      → opts.has_primary ≡ true
      → opts.max_failures <ℤ pos 2147483648
      → Counts (new_with_options opts p f).max_failures (new_with_options opts p f) 0
  unfolding new_with_options
  Counts-new opts p f h small =
      let v = new_with_options-IsValid opts p f small in
      record {
        valid = v;
        with_primary = h;
        same_limit = refl;
        degrades = ground (arith, v.positive);
        agrees = λ d. refl;
      }

  -- From a new manager with a primary and a limit of failures below 2^31, after any calls and health
  -- checks: it is degraded, and its fallback serves, exactly when the primary has failed at least as
  -- often as the limit allows since the last health check that reached it. A call that the primary
  -- serves without an error does not start the count anew.
  pub degraded-run :
      (events : List (Event P F)) (opts : Options) (p : P) (f : F)
      → opts.has_primary ≡ true
      → opts.max_failures <ℤ pos 2147483648
      → let m₀ = new_with_options opts p f in
        let (m, failures) = run events m₀ 0 in
        (m.degraded ≡ leb_ℤ m₀.max_failures (pos failures))
        × (m.current ≡ (if leb_ℤ m₀.max_failures (pos failures) then fallback else primary))
  degraded-run events opts p f h small =
      let m₀ = new_with_options opts p f in
      let c = Counts-run events m₀.max_failures m₀ 0 (Counts-new opts p f h small) in
      let same : leb_ℤ (run events m₀ 0).0.max_failures (pos (run events m₀ 0).1)
          ≡ leb_ℤ m₀.max_failures (pos (run events m₀ 0).1) =
        ap (λ x. leb_ℤ x (pos (run events m₀ 0).1)) c.same_limit in
      let d = c.degrades ∙ same in (d, ground (arith, c.valid, c.with_primary))
