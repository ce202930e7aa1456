-- ===== src/Api/Health/Startup.antt =====
-- When WaitForReady returns nil.
use koala_v.Prelude.{ℕ, zero, suc, ◌<◌, ℤ, Bool, true, false, ◌≡◌}
use koala_v.Api.Health.Names.{last_healthy, after_checks}
use koala_v.Api.Health.{StartupChecker, Waited, ready, cancelled, Pause, wait_rounds}

module _ {S : Type 0} (since : S → S → ℤ) (pause : Pause S) (c : StartupChecker S) where
  -- Whether every checker whose name no later one has finds its part healthy.
  abbrev pub well : S → Bool
  well s = last_healthy since c.health_manager.checkers s

  -- The state that the checks of a round leave.
  abbrev checked : S → S
  checked s = after_checks since c.health_manager.checkers s

  -- The state after a round that fails: the check and the pause.
  abbrev after_round : S → S
  after_round s = (pause c.retry_interval (checked s)).1

  abbrev round : ℕ → S → S
  round zero s = s
  round (suc n) s = round n (after_round s)

  -- The first rounds find something unhealthy, and the context is not done after them.
  abbrev FailFor : ℕ → S → Type 0
  FailFor zero s = Unit
  FailFor (suc n) s =
      (well s ≡ false)
      × ((pause c.retry_interval (checked s)).0 ≡ false)
      × FailFor n (after_round s)

  -- What a round makes of its checks, before the k others.
  abbrev round_of : ℕ → Bool × S → Waited × S
  round_of k (healthy, s₁) = elim healthy [
    | true ↦ (ready, s₁)
    | false ↦
        let (stopped, s₂) = pause c.retry_interval s₁ in
        elim stopped [ true ↦ (cancelled, s₂) | false ↦ wait_rounds since pause c k s₂ ]
  ]

  -- The rounds before the one that finds all healthy.
  abbrev pub Succeeds : ℕ → S → Type 0
  Succeeds m s = (n : ℕ) × (n < m) × FailFor n s × (well (round n s) ≡ true)
