-- ===== src/Tests/Handler.antt =====
-- The theorems of the handlers and of the health checks at concrete inputs.
use koala_v.Prelude.{ℕ, zero, suc, ℤ, pos, bytes, List, [], ◌∷◌, true, false, none, some}
use koala_v.Engine.{Engine}
use koala_v.Engine.Message.{new_allowed_response}
use koala_v.Api.Types.{BatchItem, BatchResult, EngineApi}
use koala_v.Api.Handler.Batch.{result_of, invalid_result}
use koala_v.Api.Health.{HealthManager, HealthChecker, StartupChecker, Pause, status_with}
use koala_v.Tests.Data.{rules, store, State}

-- An engine that allows everything and counts its calls.
abbrev counting : EngineApi ℕ Unit
counting = record {
  browse = λ req n. (some new_allowed_response, none, suc n);
  update = λ req n. (none, suc n);
}

abbrev item : BatchItem
item = record { id = bytes "1"; act = bytes "login"; uid = []; ip = []; did = []; ext = [] }

abbrev nameless : BatchItem
nameless = record { id = bytes "2"; act = []; uid = []; ip = []; did = []; ext = [] }

abbrev items : List BatchItem
items = nameless ∷ item ∷ []

abbrev results : List BatchResult
results = invalid_result nameless ∷ result_of item new_allowed_response ∷ []

abbrev engine : Engine State
engine = record { rules = some rules; storage = some store; dicts = none }

-- A part that is healthy from the second check on.
abbrev slow_start : HealthChecker ℕ
slow_start = record {
  name = bytes "storage";
  check = λ n. elim n [ zero ↦ (status_with false [], 1) | suc m ↦ (status_with true [], suc m) ];
}

abbrev manager : HealthManager ℕ
manager = record { checkers = slow_start ∷ []; timeout = pos 5 }

abbrev since : ℕ → ℕ → ℤ
since m n = pos 0

abbrev pause : Pause ℕ
pause interval n = (false, n)

abbrev startup : StartupChecker ℕ
startup = record { health_manager = manager; max_retries = pos 3; retry_interval = pos 1 }
