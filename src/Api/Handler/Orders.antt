-- ===== src/Api/Handler/Orders.antt =====
-- Handler.Batch in every order of its goroutines.
use koala_v.Prelude.{ℕ, List, [], ◌∷◌, true, false, ◌⊎◌, ◌≡◌}
use koala_v.Api.Types.{BatchItem, BatchResult, EngineApi}
use koala_v.Api.Handler.Batch.{Slot, waiting, done, crashed, is_invalid, invalid_result, run_item}

abbrev is_waiting : Slot → ℕ
is_waiting (waiting item) = 1
is_waiting (done r) = 0
is_waiting crashed = 0

module _ {S Err : Type 0} (engine : EngineApi S Err) where
  -- What an item's slot may hold.
  abbrev pub Answers : BatchItem → Slot → Type 0
  Answers item (waiting j) = (j ≡ item) × (is_invalid item ≡ false)
  Answers item (done r) =
      ((is_invalid item ≡ true) × (r ≡ invalid_result item))
      ⊎ ((is_invalid item ≡ false) × (s : S) × ((run_item engine item s).0 ≡ done r))
  Answers item crashed =
      (is_invalid item ≡ false) × (s : S) × ((run_item engine item s).0 ≡ crashed)

  abbrev AllAnswers : List BatchItem → List Slot → Type 0
  AllAnswers [] [] = Unit
  AllAnswers [] (x ∷ xs) = ⊥
  AllAnswers (i ∷ is) [] = ⊥
  AllAnswers (i ∷ is) (x ∷ xs) = Answers i x × AllAnswers is xs

  -- The result of an item: of an invalid one the result that says so; of a valid one what the
  -- engine's answer gives in some state.
  abbrev IsResult : BatchItem → BatchResult → Type 0
  IsResult item r =
      (r.id ≡ item.id)
      × (((is_invalid item ≡ true) × (r ≡ invalid_result item))
          ⊎ ((is_invalid item ≡ false) × (s : S) × ((run_item engine item s).0 ≡ done r)))

  abbrev pub AllResults : List BatchItem → List BatchResult → Type 0
  AllResults [] [] = Unit
  AllResults [] (x ∷ xs) = ⊥
  AllResults (i ∷ is) [] = ⊥
  AllResults (i ∷ is) (x ∷ xs) = IsResult i x × AllResults is xs
