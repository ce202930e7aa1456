-- ===== src/Api/Handler/Batch.antt =====
-- internal/api/handler.go: Handler.Batch. Each valid item is browsed by a goroutine of its own: a
-- slot of the results waits until its goroutine has run, and the goroutines run in any order, each
-- as one step on the engine's state.
use koala_v.Prelude.{
  ℕ, zero, suc, ltb, ◌==◌, ℤ, pos, negsuc, Text, utf8, text_eq, length, List, [], ◌∷◌, ◌++◌, Bool,
  false, ◌||◌, Option, none, some, if◌then◌else◌, ◌≡◌,
}
use koala_v.Engine.Message.{Response}
use koala_v.Api.Types.{ApiRequest, BatchItem, BatchResult, EngineApi}
use koala_v.Api.Handler.{Answer, bad_request, parameter_error}

-- A place of the results: its goroutine has not run, has written a result, or has panicked.
pub data Slot : Type 0 where
  waiting : BatchItem → Slot
  done : BatchResult → Slot
  crashed : Slot

abbrev pub is_invalid : BatchItem → Bool
is_invalid item = text_eq item.id [] || text_eq item.act []

abbrev pub failed_result : BatchItem → ℤ → Text → BatchResult
failed_result item code message = record {
  id = item.id;
  allowed = false;
  code = code;
  message = message;
  rule_name = [];
  auth_type = pos 0;
}

abbrev pub invalid_result : BatchItem → BatchResult
invalid_result item = failed_result item (negsuc 0) (utf8 "请求ID和Act不能为空")

-- The loop that starts the goroutines.
unfoldable pub start_items : List BatchItem → List Slot
start_items [] = []
start_items (item ∷ items) =
    (if is_invalid item then done (invalid_result item) else waiting item) ∷ start_items items

-- A request that is answered at once, or the slots of the goroutines.
pub data BatchStart : Type 0 where
  rejected : Answer → BatchStart
  started : List Slot → BatchStart

unfoldable pub batch : Option (List BatchItem) → BatchStart
unfolding start_items
batch none = rejected parameter_error
batch (some requests) =
    if length requests == 0
    then rejected (bad_request (utf8 "请求列表不能为空"))
    else if ltb 100 (length requests)
    then rejected (bad_request (utf8 "请求数量超过限制（最大100）"))
    else started (start_items requests)

abbrev pub request_of : BatchItem → ApiRequest
request_of item = record {
  act = item.act;
  uid = item.uid;
  ip = item.ip;
  did = item.did;
  ext = item.ext;
  update = false;
}

abbrev pub result_of : BatchItem → Response → BatchResult
result_of item r = record {
  id = item.id;
  allowed = r.allowed;
  code = r.code;
  message = r.message;
  rule_name = r.rule_name;
  auth_type = r.auth_type;
}

module _ {S Err : Type 0} (engine : EngineApi S Err) where
  -- A goroutine.
  unfoldable pub run_item : BatchItem → S → Slot × S
  run_item item s =
      let (response, err, s₁) = engine.browse (request_of item) s in
      elim err [
        | some e ↦ (done (failed_result item (negsuc 1) (utf8 "服务器内部错误")), s₁)
        | none ↦ elim response [ none ↦ (crashed, s₁) | some r ↦ (done (result_of item r), s₁) ]
      ]

  -- One of the goroutines that wait runs.
  pub data Step (slots : List Slot) (s : S) (slots' : List Slot) (s' : S) : Type 0 where
    run :
        (before after : List Slot) (item : BatchItem)
        → slots ≡ before ++ waiting item ∷ after
        → slots' ≡ before ++ (run_item item s).0 ∷ after
        → s' ≡ (run_item item s).1
        → Step slots s slots' s'

  -- A number of steps.
  pub data Steps (slots : List Slot) (s : S) : ℕ → List Slot → S → Type 0 where
    here : Steps slots s zero slots s
    next :
        {n : ℕ} {slots₁ slots₂ : List Slot} {s₁ s₂ : S}
        → Steps slots s n slots₁ s₁
        → Step slots₁ s₁ slots₂ s₂
        → Steps slots s (suc n) slots₂ s₂

  -- The goroutines in the order of the items, which is one of the orders.
  unfoldable pub run_slots : List Slot → S → List Slot × S
  unfolding run_item
  run_slots [] s = ([], s)
  run_slots (waiting item ∷ slots) s =
      let (slot, s₁) = run_item item s in let (rest, s₂) = run_slots slots s₁ in (slot ∷ rest, s₂)
  run_slots (done result ∷ slots) s = let (rest, s₁) = run_slots slots s in (done result ∷ rest, s₁)
  run_slots (crashed ∷ slots) s = let (rest, s₁) = run_slots slots s in (crashed ∷ rest, s₁)
