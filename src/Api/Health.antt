-- ===== src/Api/Health.antt =====
-- internal/api/health.go: the checkers, HealthManager and StartupChecker. The checks act on a state,
-- and run in the order of the list, as one of the orders of their goroutines; the time between two
-- states, which is the latency of a check, is a parameter, as are the pauses of the loop.
pub mod Names
pub mod Startup
use koala_v.Prelude.{
  ℕ, zero, suc, ℤ, pos, leb_ℤ, Text, bytes, utf8, Table, lookup, insert, List, [], ◌∷◌, ◌++◌, Bool,
  true, false, ◌&&◌, Option, none, some, if◌then◌else◌,
}
use koala_v.Engine.Message.{Response}
use koala_v.Api.Types.{ApiRequest, EngineApi}

pub record HealthStatus : Type 0 where
  pub healthy : Bool
  pub message : Text
  pub latency : ℤ

pub record HealthChecker (S : Type 0) : Type 0 where
  pub name : Text
  pub check : S → HealthStatus × S

pub record HealthManager (S : Type 0) : Type 0 where
  pub checkers : List (HealthChecker S)
  pub timeout : ℤ

abbrev pub status_with : Bool → Text → HealthStatus
status_with healthy message = record { healthy = healthy; message = message; latency = pos 0 }

abbrev pub health_check_request : ApiRequest
health_check_request = record {
  act = bytes "__health_check__";
  uid = [];
  ip = [];
  did = [];
  ext = [];
  update = false;
}

module _ {S Err : Type 0} (error_text : Err → Text) where
  -- A nil function is `none`.
  abbrev pub storage_check : Option (S → Option Err × S) → S → HealthStatus × S
  storage_check none s = (status_with true (utf8 "无存储检查函数"), s)
  storage_check (some ping) s =
      let (err, s₁) = ping s in
      elim err [
        | some e ↦ (status_with false (utf8 "存储连接失败: " ++ error_text e), s₁)
        | none ↦ (status_with true (utf8 "存储连接正常"), s₁)
      ]

  abbrev pub engine_check : Option (EngineApi S Err) → S → HealthStatus × S
  engine_check none s = (status_with false (utf8 "引擎未初始化"), s)
  engine_check (some engine) s =
      let (response, err, s₁) = engine.browse health_check_request s in
      elim err [
        | some e ↦ (status_with false (utf8 "引擎检查失败: " ++ error_text e), s₁)
        | none ↦ (status_with true (utf8 "引擎运行正常"), s₁)
      ]

  -- The two checkers.
  abbrev pub new_storage_health_checker : Text → Option (S → Option Err × S) → HealthChecker S
  new_storage_health_checker name ping = record { name = name; check = storage_check ping }

  abbrev pub new_engine_health_checker : Option (EngineApi S Err) → HealthChecker S
  new_engine_health_checker engine = record { name = bytes "engine"; check = engine_check engine }

-- ReadinessManager is its flag.
abbrev pub ReadinessManager : Type 0
ReadinessManager = Bool

abbrev pub new_readiness_manager : ReadinessManager
new_readiness_manager = false

abbrev pub set_ready : Bool → ReadinessManager → ReadinessManager
set_ready ready m = ready

abbrev pub is_ready : ReadinessManager → Bool
is_ready m = m

abbrev pub new_health_manager : {S : Type 0} → ℤ → HealthManager S
new_health_manager timeout = record {
  checkers = [];
  timeout = if leb_ℤ timeout (pos 0) then pos 5000000000 else timeout;
}

abbrev pub register : {S : Type 0} → HealthChecker S → HealthManager S → HealthManager S
register checker m = record m { checkers = m.checkers ++ checker ∷ [] }

module _ {S : Type 0} (since : S → S → ℤ) where
  unfoldable pub run_checks :
      List (HealthChecker S) → Table HealthStatus → S → Table HealthStatus × S
  run_checks [] results s = (results, s)
  run_checks (c ∷ cs) results s =
      let (status, s₁) = c.check s in
      run_checks cs (insert c.name (record status { latency = since s s₁ }) results) s₁

  unfoldable pub check_all : HealthManager S → S → Table HealthStatus × S
  unfolding run_checks
  check_all m s = run_checks m.checkers [] s

  unfoldable pub all_healthy : Table HealthStatus → Bool
  all_healthy [] = true
  all_healthy ((name, status) ∷ rest) =
      let others = all_healthy rest in if status.healthy then others else false

  unfoldable pub is_healthy : HealthManager S → S → Bool × S
  unfolding check_all all_healthy
  is_healthy m s = let (results, s₁) = check_all m s in (all_healthy results, s₁)

pub record StartupChecker (S : Type 0) : Type 0 where
  pub health_manager : HealthManager S
  pub max_retries : ℤ
  pub retry_interval : ℤ

abbrev pub new_startup_checker : {S : Type 0} → HealthManager S → ℤ → ℤ → StartupChecker S
new_startup_checker health_manager max_retries retry_interval = record {
  health_manager = health_manager;
  max_retries = if leb_ℤ max_retries (pos 0) then pos 10 else max_retries;
  retry_interval = if leb_ℤ retry_interval (pos 0) then pos 1000000000 else retry_interval;
}

-- What WaitForReady returns: nil, the context's error, or a StartupError with its results.
pub data Waited : Type 0 where
  ready : Waited
  cancelled : Waited
  timed_out : Table HealthStatus → Waited

-- StartupError.Error, for what WaitForReady returns then.
abbrev pub waited_text : Waited → Option Text
waited_text ready = none
waited_text cancelled = none
waited_text (timed_out results) = some (utf8 "启动超时，部分组件未就绪")

-- A pause: whether the context was done before the interval was over.
abbrev pub Pause : Type 0 → Type 0
Pause S = ℤ → S → Bool × S

module _ {S : Type 0} (since : S → S → ℤ) (pause : Pause S) (c : StartupChecker S) where
  -- The rounds that are left.
  unfoldable pub wait_rounds : ℕ → S → Waited × S
  unfolding is_healthy check_all
  wait_rounds zero s =
      let (results, s₁) = check_all since c.health_manager s in (timed_out results, s₁)
  wait_rounds (suc n) s =
      let (healthy, s₁) = is_healthy since c.health_manager s in
      elim healthy [
        | true ↦ (ready, s₁)
        | false ↦
            let (stopped, s₂) = pause c.retry_interval s₁ in
            elim stopped [ true ↦ (cancelled, s₂) | false ↦ wait_rounds n s₂ ]
      ]

  -- A number of rounds below zero, which no constructor makes, is none.
  abbrev pub rounds : ℤ → ℕ
  rounds (pos n) = n
  rounds (ℤ.negsuc n) = 0

  unfoldable pub wait_for_ready : S → Waited × S
  unfolding wait_rounds
  wait_for_ready s = wait_rounds (rounds c.max_retries) s
