-- ===== src/Api/Health/Names.antt =====
-- What IsHealthy says of the checkers.
use koala_v.Prelude.{
  ℤ, Text, text_eq, text_eq_iff, Table, lookup, insert, lookup-insert, none, List, [], ◌∷◌, Bool,
  true, false, ◌&&◌, ◌||◌, ◌≡◌, refl, ap, ◌∙◌, arith, if◌then◌else◌,
}
use koala_v.Api.Health.{
  HealthStatus, HealthChecker, HealthManager, run_checks, check_all, all_healthy, is_healthy,
}

-- A table with one entry for each key.
abbrev IsDistinct {ℓ} : {V : Type ℓ} → Table V → Type ℓ
IsDistinct [] = Unit
IsDistinct ((k, v) ∷ m) = (lookup k m ≡ none) × IsDistinct m

insert-IsDistinct {ℓ} :
    {V : Type ℓ} (k : Text) (v : V) (m : Table V) → IsDistinct m → IsDistinct (insert k v m)
unfolding insert lookup
insert-IsDistinct k v [] d = (refl, tt)
insert-IsDistinct k v ((j, w) ∷ m) (d, ds) =
    ground (
      arith,
      lookup-insert k j v m,
      insert-IsDistinct k v m ds,
      text_eq_iff j k,
      d,
      text_eq_iff k j,
    )

-- Whether a list has a checker of a name.
abbrev pub has_name : {S : Type 0} → Text → List (HealthChecker S) → Bool
has_name name [] = false
has_name name (c ∷ cs) = text_eq c.name name || has_name name cs

module _ {S : Type 0} (since : S → S → ℤ) where
  -- The state that the checks before it leave, and whether every checker whose name no later one
  -- has finds its part healthy.
  unfoldable pub last_healthy : List (HealthChecker S) → S → Bool
  last_healthy [] s = true
  last_healthy (c ∷ cs) s =
      let rest = last_healthy cs (c.check s).1 in
      if has_name c.name cs then rest else (c.check s).0.healthy && rest

  -- Whether every entry whose name no checker has is healthy.
  unfoldable others_healthy : List (HealthChecker S) → Table HealthStatus → Bool
  others_healthy cs [] = true
  others_healthy cs ((k, v) ∷ m) =
      let rest = others_healthy cs m in (has_name k cs || v.healthy) && rest

  others_healthy-absent :
      (cs : List (HealthChecker S)) (c : HealthChecker S) (m : Table HealthStatus)
      → lookup c.name m ≡ none
      → others_healthy (c ∷ cs) m ≡ others_healthy cs m
  unfolding others_healthy lookup
  others_healthy-absent cs c [] h = refl
  others_healthy-absent cs c ((j, w) ∷ m) h =
      ground (arith, h, others_healthy-absent cs c m, text_eq_iff j c.name, text_eq_iff c.name j)

  others_healthy-insert :
      (cs : List (HealthChecker S)) (c : HealthChecker S) (v : HealthStatus)
      (m : Table HealthStatus)
      → IsDistinct m
      → others_healthy cs (insert c.name v m)
        ≡ ((has_name c.name cs || v.healthy) && others_healthy (c ∷ cs) m)
  unfolding others_healthy insert
  others_healthy-insert cs c v [] d = ground arith
  others_healthy-insert cs c v ((j, w) ∷ m) (d, ds) = ground (
    arith,
    others_healthy-insert cs c v m ds,
    text_eq_iff j c.name,
    text_eq_iff c.name j,
    others_healthy-absent cs c m,
    d,
  )

  others_healthy-nobody : (m : Table HealthStatus) → others_healthy [] m ≡ all_healthy since m
  unfolding others_healthy all_healthy
  others_healthy-nobody [] = refl
  others_healthy-nobody ((k, v) ∷ m) = ground (arith, others_healthy-nobody m)

  run_checks-healthy :
      (cs : List (HealthChecker S)) (m : Table HealthStatus) (s : S)
      → IsDistinct m
      → all_healthy since (run_checks since cs m s).0 ≡ (others_healthy cs m && last_healthy cs s)
  unfolding run_checks last_healthy
  run_checks-healthy [] m s d = ground (arith, others_healthy-nobody m)
  run_checks-healthy (c ∷ cs) m s d =
      let status = record (c.check s).0 { latency = since s (c.check s).1 } in
      ground (
        arith,
        run_checks-healthy cs (insert c.name status m) (c.check s).1
            (insert-IsDistinct c.name status m d),
        others_healthy-insert cs c status m d,
      )

  -- IsHealthy is true exactly if every checker finds its part healthy whose name no later checker
  -- has: a checker does not count if a later one has the same name.
  is_healthy-last :
      (m : HealthManager S) (s : S) → (is_healthy since m s).0 ≡ last_healthy m.checkers s
  unfolding is_healthy check_all others_healthy
  is_healthy-last m s = ground (arith, run_checks-healthy m.checkers [] s tt)

  -- The state that all checks leave.
  abbrev pub after_checks : List (HealthChecker S) → S → S
  after_checks [] s = s
  after_checks (c ∷ cs) s = after_checks cs (c.check s).1

  run_checks-after :
      (cs : List (HealthChecker S)) (m : Table HealthStatus) (s : S)
      → (run_checks since cs m s).1 ≡ after_checks cs s
  unfolding run_checks
  run_checks-after [] m s = refl
  run_checks-after (c ∷ cs) m s = run_checks-after cs _ (c.check s).1

  is_healthy-after :
      (m : HealthManager S) (s : S) → (is_healthy since m s).1 ≡ after_checks m.checkers s
  unfolding is_healthy check_all
  is_healthy-after m s = run_checks-after m.checkers [] s

  pub is_healthy_checked :
      (m : HealthManager S) (s : S)
      → is_healthy since m s ≡ (last_healthy m.checkers s, after_checks m.checkers s)
  is_healthy_checked m s =
      ap (λ b. (b, (is_healthy since m s).1)) (is_healthy-last m s)
      ∙ ap (λ t. (last_healthy m.checkers s, t)) (is_healthy-after m s)
